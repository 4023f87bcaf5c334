-- ===== src/Suite/Vault/Steps.antt =====
-- The steps of the tests of src/lib.rs and tests/integration.rs.
use aegis_keys_with_soteria.Prelude.{
  ◌⊎◌, suc, ◌*◌, ◌≡◌, ◌∙◌, false, some, none, inl, inr, ◌≤◌, [], ◌∷◌, length, ==_iff,
}
use aegis_keys_with_soteria.Errors.{ok, err, aead_open}
use aegis_keys_with_soteria.Errors.Effects.{World}
use aegis_keys_with_soteria.Primitives.{Bytes, Primitives, IsLawful, message_limit}
use aegis_keys_with_soteria.AegisKey.{expose}
use aegis_keys_with_soteria.Kdf.{derived}
use aegis_keys_with_soteria.Aead.{AeadCipher, xchacha20_poly1305}
use aegis_keys_with_soteria.Aead.Laws.{seal_total, open_sealed-encrypt, open_sealed_errors}
use aegis_keys_with_soteria.Hierarchy.{enc}
use aegis_keys_with_soteria.Slots.{KeySlot}
use aegis_keys_with_soteria.Slots.Wrap.{Accepts}
use aegis_keys_with_soteria.Table.{KeySlotTable}
use aegis_keys_with_soteria.Table.Grow.{IsTable, IsFor, new_initial_total}
use aegis_keys_with_soteria.Table.Opens.{Opens}
use aegis_keys_with_soteria.Vault.{
  AegisVault, domain, unlock, encrypt, decrypt, seal_slots, verify_volume,
}
use aegis_keys_with_soteria.Vault.Keys.{IsVault, unlock_result, domain-length}
use aegis_keys_with_soteria.Suite.Accidents.{Accident, forged}
use aegis_keys_with_soteria.Suite.Slots.Tables.{first-Opens}

module _ ⦃P : Primitives⦄ (L : IsLawful P) where
  -- A vault as `unlock` makes it.
  pub record Unlocked (pw salt key : Bytes) (w : World) : Type 0 where
    pub v : AegisVault
    pub after : World
    pub made : unlock pw salt (32 * 1024) 2 w ≡ (ok v, after)
    pub master : expose v.master ≡ key
    pub no_slots : v.slots ≡ none
    pub valid : IsVault v

  pub unlocked :
      (pw salt key : Bytes) (w : World)
      → derived pw salt (32 * 1024) 2 ≡ some key
      → Unlocked pw salt key w
  unlocked pw salt key w d = elim (unlock_result L pw salt (32 * 1024) 2 w) [
    | inl (k, v, u, e, o, x, n, i) ↦ record {
      v = v;
      after = u;
      made = o;
      master = x ∙ cc (e, d);
      no_slots = n;
      valid = i;
    }
    | inr (refused, _) ↦ cc
  ]

  -- Encrypting under the domain key `enc`, decrypting, and decrypting with the other data.
  pub record Sealing (v : AegisVault) (pt aad other : Bytes) (w : World) : Type 0 where
    pub nonce : Bytes
    pub ct : Bytes
    pub after : World
    pub sealed : encrypt v enc pt aad xchacha20_poly1305 w ≡ (ok (nonce, ct), after)
    pub opened : decrypt v enc nonce ct aad xchacha20_poly1305 ≡ ok pt
    pub other_data :
        (decrypt v enc nonce ct other xchacha20_poly1305 ≡ err aead_open)
        ⊎ Accident (expose v.master) aad other

  pub sealing :
      (v : AegisVault) (pt aad other : Bytes) (w : World)
      → IsVault v
      → length pt ≤ message_limit
      → length aad ≤ message_limit
      → Sealing v pt aad other w
  unfolding encrypt decrypt
  sealing v pt aad other w i short few =
      let l = domain-length L v enc i in
      let key = expose (domain v enc) in
      let c : AeadCipher = record { algo = xchacha20_poly1305; key = key } in
      let nonce = P.fill_bytes w 24 in
      let (ct, e, s) = seal_total L c pt aad l w short few in
      record {
        nonce = nonce;
        ct = ct;
        after = suc w;
        sealed = rw ((==_iff _ _).1 l) s;
        opened =
            rw ((==_iff _ _).1 l, decrypt)
              (open_sealed-encrypt L c pt aad l nonce ct (L.fill_bytes-length w 24) e);
        other_data = elim (open_sealed_errors L c nonce ct other l) [
          | inl failed ↦ inl (rw ((==_iff _ _).1 l, decrypt) failed)
          | inr (m, _, _, d) ↦ inr (forged key nonce pt ct m e d)
        ];
      }

  -- A vault that is sealed for one passphrase.
  pub record Persisted (v : AegisVault) (pw : Bytes) (w : World) : Type 0 where
    pub t : KeySlotTable
    pub slot : KeySlot
    pub after : World
    pub made : seal_slots pw v w ≡ (ok tt, record v { slots = some t }, after)
    pub one : t.slots ≡ slot ∷ []
    pub holds : IsFor (expose v.master) pw slot
    pub table : IsTable (expose v.master) t
    pub valid : IsVault (record v { slots = some t })

  pub persisted :
      (v : AegisVault) (pw : Bytes) (w : World) → IsVault v → Accepts pw 64 3 → Persisted v pw w
  unfolding seal_slots
  persisted v pw w i a =
      let l = i.master_length in
      let (t, u, s, e, one, new, h) = new_initial_total L (expose v.master) pw l w a in
      record {
        t = t;
        slot = s;
        after = u;
        made = rw ((==_iff _ _).1 l, e);
        one = one;
        holds = new;
        table = h;
        valid = record {
          master_length = l;
          hierarchy_derived = i.hierarchy_derived;
          slots_for = h;
        };
      }

  pub Persisted-Opens :
      (v : AegisVault) (pw : Bytes) (w : World) (r : Persisted v pw w)
      → Opens r.t pw 0 (expose v.master)
  Persisted-Opens v pw w r = first-Opens L (expose v.master) pw r.t r.slot [] r.one r.holds

pub verify_volume-none :
    ⦃P : Primitives⦄ (v : AegisVault) → v.slots ≡ none → verify_volume v ≡ ok false
unfolding verify_volume
verify_volume-none v e = rw (e, verify_volume)
