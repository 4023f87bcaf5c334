-- ===== src/Table/Held.antt =====
-- A slot table of src/slots.rs against the users of its specification.
use aegis_keys_with_soteria.Prelude.{
  ℕ, zero, suc, ◌≡◌, refl, ap, true, false, Option, none, some, List, [], ◌∷◌, ◌++◌, arith, length,
  get_elem?, set,
}
use mathlib.Core.Path.{subst}
use aegis_keys_with_soteria.Errors.{ok}
use aegis_keys_with_soteria.Primitives.{Bytes, Primitives, IsRobust}
use aegis_keys_with_soteria.Slots.{KeySlot, is_enabled, header_magic}
use aegis_keys_with_soteria.Slots.Wrap.{opening, opening-decrypt}
use aegis_keys_with_soteria.Table.{count_enabled}
use aegis_keys_with_soteria.Table.Grow.{IsFor}
use aegis_keys_with_soteria.Users.{Users, active}

module _ ⦃P : Primitives⦄ (master : Bytes) where
  -- The slot is enabled, its passphrase opens it to the master key, and no passphrase opens it to
  -- anything else.
  pub record IsHeld (p : Bytes) (s : KeySlot) : Type 0 where
    pub enabled : is_enabled s ≡ true
    pub opens : opening s p ≡ ok master
    pub binds : (q m : Bytes) → opening s q ≡ ok m → m ≡ master

  abbrev pub HeldBy : Option Bytes → KeySlot → Type 0
  HeldBy none s = is_enabled s ≡ false
  HeldBy (some p) s = IsHeld p s

  pub data Held : Users → List KeySlot → Type 0 where
    nobody : Held [] []
    next :
        {us : Users} {slots : List KeySlot} (u : Option Bytes) (s : KeySlot)
        → HeldBy u s
        → Held us slots
        → Held (u ∷ us) (s ∷ slots)

  pub Held-length : {us : Users} {slots : List KeySlot} → Held us slots → length us ≡ length slots
  Held-length nobody = refl
  Held-length (next u s h r) = ap suc (Held-length r)

  pub active-eq-count_enabled :
      {us : Users} {slots : List KeySlot} → Held us slots → active us ≡ count_enabled slots
  unfolding active count_enabled
  active-eq-count_enabled nobody = refl
  active-eq-count_enabled (next none s h r) = ground (arith, active-eq-count_enabled r)
  active-eq-count_enabled (next (some p) s h r) =
      ground (arith, h.enabled, active-eq-count_enabled r)

  pub Held-get_elem? :
      {us : Users} {slots : List KeySlot} (i : ℕ) (u : Option Bytes)
      → Held us slots
      → get_elem? us i ≡ some u
      → (s : KeySlot) × (get_elem? slots i ≡ some s) × HeldBy u s
  Held-get_elem? i u nobody e = cc
  Held-get_elem? zero u (next v s h r) e =
      let same : v ≡ u = cc in (s, refl, subst (λ x. HeldBy x s) same h)
  Held-get_elem? (suc i) u (next v s h r) e = Held-get_elem? i u r e

  -- The user of a slot.
  pub Held-slot :
      {us : Users} {slots : List KeySlot} (i : ℕ) (s : KeySlot)
      → Held us slots
      → get_elem? slots i ≡ some s
      → (u : Option Bytes) × (get_elem? us i ≡ some u) × HeldBy u s
  Held-slot i s nobody e = cc
  Held-slot zero s (next u x h r) e = let same : x ≡ s = cc in (u, refl, subst (HeldBy u) same h)
  Held-slot (suc i) s (next u x h r) e = Held-slot i s r e

  pub HeldBy-disabled :
      (u : Option Bytes) (s : KeySlot) → HeldBy u s → is_enabled s ≡ false → u ≡ none
  HeldBy-disabled none s h off = refl
  HeldBy-disabled (some p) s h off = cc (h.enabled, off)

  pub HeldBy-enabled :
      (u : Option Bytes) (s : KeySlot)
      → HeldBy u s
      → is_enabled s ≡ true
      → (p : Bytes) × (u ≡ some p)
  HeldBy-enabled none s h on = cc (h, on)
  HeldBy-enabled (some p) s h on = (p, refl)

  pub Held-append :
      {us : Users} {slots : List KeySlot} (u : Option Bytes) (s : KeySlot)
      → Held us slots
      → HeldBy u s
      → Held (us ++ u ∷ []) (slots ++ s ∷ [])
  Held-append u s nobody n = next u s n nobody
  Held-append u s (next v x h r) n = next v x h (Held-append u s r n)

  pub Held-set :
      {us : Users} {slots : List KeySlot} (i : ℕ) (u : Option Bytes) (s : KeySlot)
      → Held us slots
      → HeldBy u s
      → Held (set us i u) (set slots i s)
  Held-set i u s nobody n = nobody
  Held-set zero u s (next v x h r) n = next u s n r
  Held-set (suc i) u s (next v x h r) n = next v x h (Held-set i u s r n)

  -- A slot that was created for a passphrase is held by it.
  pub IsFor-IsHeld :
      IsRobust P.aes_256_gcm → (p : Bytes) (s : KeySlot) → IsFor master p s → IsHeld p s
  IsFor-IsHeld r p s f = record {
    enabled = f.enabled;
    opens = f.opens;
    binds = λ q m o.
        let (sk, _, c) = f.sealed in
        let (sk', d) = opening-decrypt s q m o in
        r.robust sk sk' s.nonce master m header_magic s.ct c d;
  }
