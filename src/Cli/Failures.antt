-- ===== src/Cli/Failures.antt =====
-- How the helpers of src/bin/aegis.rs end: `req`, `read_vault`, `open_vault`, and the calls of the
-- vault behind them.
use aegis_keys_with_soteria.Prelude.{
  ℕ, ◌<◌, ◌≡◌, ◌≢◌, refl, none, some, inl, inr, arith, length, take, drop, ltb, not, ==_iff,
}
use aegis_keys_with_soteria.Errors.{Result, ok, panic}
use aegis_keys_with_soteria.Errors.Effects.{World}
use aegis_keys_with_soteria.Primitives.{Bytes, Primitives, IsLawful}
use aegis_keys_with_soteria.AegisKey.{expose}
use aegis_keys_with_soteria.Kdf.{derived}
use aegis_keys_with_soteria.Hierarchy.{literal, Domain}
use aegis_keys_with_soteria.Hierarchy.Separation.{IsDerived, IsDerived-length}
use aegis_keys_with_soteria.Table.{KeySlotTable}
use aegis_keys_with_soteria.Codec.{from_bytes, index_at}
use aegis_keys_with_soteria.Codec.Slot.{index_at_long}
use aegis_keys_with_soteria.Vault.{
  AegisVault, domain, unlock, open_from_slots, encrypt, decrypt, verify_volume,
}
use aegis_keys_with_soteria.Aead.{AeadAlgo}
use aegis_keys_with_soteria.Aead.Laws.{seal-ne-panic, open_sealed_errors}
use aegis_keys_with_soteria.Vault.Keys.{unlock_result}
use aegis_keys_with_soteria.Vault.Persist.{
  Opening, opened, failed, panicked, open_from_slots-Opening,
}
use aegis_keys_with_soteria.Vault.Panics.{open_from_slots-panic_iff}
use aegis_keys_with_soteria.Process.{FileSystem, or_fail, unwrap}
use aegis_keys_with_soteria.Process.Endings.{
  Quiet, value, Quiet-bind, check-Quiet, or_fail-Quiet, unwrap-Quiet, call-Quiet, read_file-Quiet,
}
use aegis_keys_with_soteria.Cli.{cli_salt, mem_kib, iters, read_vault, open_vault}

module _ ⦃P : Primitives⦄ (L : IsLawful P) {S : Type 0} (F : FileSystem S) (s : S) where
  -- Why a command can panic: Argon2 does not take the fixed passphrase, or the parser of slot
  -- tables panics on the content of a file.
  pub data Crash : Type 0 where
    fixed_passphrase : derived (literal "ignored") cli_salt mem_kib iters ≡ none → Crash
    malformed :
        (path content : Bytes)
        → F.read s path ≡ some content
        → from_bytes (drop 38 content) (take 32 (drop 6 content)) ≡ panic
        → Crash

  -- A vault from a file: its table, a 256-bit master key and the hierarchy of that key.
  pub record IsOpen (v : AegisVault) : Type 0 where
    pub table : KeySlotTable
    pub slots : v.slots ≡ some table
    pub master_length : length (expose v.master) ≡ 32
    pub derived_keys : IsDerived (expose v.master) v.hierarchy

  -- The table bytes and the salt are parts of the file.
  abbrev IsPart : Bytes → Bytes × Bytes → Type 0
  IsPart path (bytes, salt) =
      (content : Bytes) × (F.read s path ≡ some content)
      × (bytes ≡ drop 38 content)
      × (salt ≡ take 32 (drop 6 content))

  pub read_byte-Quiet :
      (b : Bytes) (i : ℕ) (w : World)
      → i < length b
      → Quiet s Crash (λ _. Unit {0}) (or_fail (λ u. (index_at b i, u)) s w)
  read_byte-Quiet b i w inside =
      or_fail-Quiet s Crash (λ u. (index_at b i, u)) w (λ _ _. tt)
        (λ p. absurd (cc (index_at_long b i inside, p)))

  read_vault-Quiet :
      (path : Bytes) (w : World) → Quiet s Crash (IsPart path) (read_vault F path s w)
  unfolding read_vault
  read_vault-Quiet path w = Quiet-bind s Crash _ (read_file-Quiet s Crash F path w) (λ buf u1 e.
      Quiet-bind s Crash _ (check-Quiet s Crash (not (ltb (length buf) 38)) u1) (λ _ u2 long.
        Quiet-bind s Crash _ (check-Quiet s Crash _ u2) (λ _ u3 _.
          Quiet-bind s Crash _ (read_byte-Quiet buf 5 u3 (ground (arith, long))) (λ v u4 _.
            Quiet-bind s Crash _ (check-Quiet s Crash _ u4)
              (λ _ u5 _. value (drop 38 buf, take 32 (drop 6 buf)) (buf, e, refl, refl))))))

  pub unlock-Quiet :
      (w : World)
      → Quiet s Crash
          (λ _. Unit {0})
          (unwrap (unlock (literal "ignored") cli_salt mem_kib iters) s w)
  unlock-Quiet w =
      unwrap-Quiet s Crash (unlock (literal "ignored") cli_salt mem_kib iters) w (λ _ _. tt)
        (λ e h. fixed_passphrase (refused h (λ v p. cc)))
        (λ h. fixed_passphrase (refused h (λ v p. cc)))
    where
      refused :
          {r : Result AegisVault}
          → (unlock (literal "ignored") cli_salt mem_kib iters w).0 ≡ r
          → ((v : AegisVault) → r ≢ ok v)
          → derived (literal "ignored") cli_salt mem_kib iters ≡ none
      refused h differs = elim (unlock_result L (literal "ignored") cli_salt mem_kib iters w) [
        | inl (_, v, _, _, e, _, _, _) ↦ absurd (differs v (cc (e, h)))
        | inr (none_derived, _) ↦ none_derived
      ]

  open_from_slots-IsOpen :
      (bytes salt pass : Bytes) (v : AegisVault) (w : World)
      → (open_from_slots bytes salt pass v w).0 ≡ ok tt
      → IsOpen (open_from_slots bytes salt pass v w).1
  open_from_slots-IsOpen bytes salt pass v w = go (open_from_slots-Opening L bytes salt pass v w)
    where
      go :
          {o : Result (Unit {0}) × AegisVault × World}
          → Opening bytes salt pass v o
          → o.0 ≡ ok tt
          → IsOpen o.1
      go (opened t r i e) h = record {
        table = t;
        slots = e;
        master_length = r.raw_len;
        derived_keys = i;
      }
      go (failed x) h = cc
      go panicked h = cc

  pub open_vault-Quiet :
      (path pass : Bytes) (w : World) → Quiet s Crash IsOpen (open_vault F path pass s w)
  unfolding open_vault
  open_vault-Quiet path pass w =
      Quiet-bind s Crash _ (read_vault-Quiet path w) (λ (bytes, salt) u1 (content, e, b, c).
        Quiet-bind s Crash _ (unlock-Quiet u1) (λ v u2 _.
          Quiet-bind s Crash {Q = λ (_, x). IsOpen x} _
            (call-Quiet s Crash {Q = λ (_, x). IsOpen x} (open_from_slots bytes salt pass) v u2
              (λ _ h. open_from_slots-IsOpen bytes salt pass v u2 h)
              (λ p.
                malformed path content e
                  (cc ((open_from_slots-panic_iff L v bytes salt pass u2).0 p, b, c))))
            (λ (_, v') u3 o. value v' o)))

  length-domain : (v : AegisVault) (d : Domain) → IsOpen v → length (expose (domain v d)) ≡ 32
  unfolding domain
  length-domain v d o = IsDerived-length L (expose v.master) v.hierarchy d o.derived_keys

  pub encrypt-ne-panic :
      (v : AegisVault) (d : Domain) (plaintext ad : Bytes) (algo : AeadAlgo) (w : World)
      → IsOpen v
      → (encrypt v d plaintext ad algo w).0 ≢ panic
  unfolding encrypt
  encrypt-ne-panic v d plaintext ad algo w o =
      rw ((==_iff _ _).1 (length-domain v d o))
        (seal-ne-panic L (record { algo = algo; key = expose (domain v d) }) plaintext ad w)

  pub decrypt-ne-panic :
      (v : AegisVault) (d : Domain) (nonce ct ad : Bytes) (algo : AeadAlgo)
      → IsOpen v
      → decrypt v d nonce ct ad algo ≢ panic
  unfolding decrypt
  decrypt-ne-panic v d nonce ct ad algo o =
      let l = length-domain v d o in
      rw ((==_iff _ _).1 l, decrypt)
        (λ p.
          elim (open_sealed_errors L (record { algo = algo; key = expose (domain v d) }) nonce ct ad
            l) [ inl e ↦ cc (e, p) | inr (_, e, _, _) ↦ cc (e, p) ])

  pub verify_volume-ne-panic : (v : AegisVault) → IsOpen v → verify_volume v ≢ panic
  unfolding verify_volume
  verify_volume-ne-panic v o = rw (o.slots, (==_iff _ _).1 o.master_length) (λ p. cc)
