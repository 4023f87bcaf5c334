-- ===== src/Tests/Access.antt =====
-- The theorems about the users of a table, on the sample volume.
use aegis_keys_with_soteria.Prelude.{ℕ, ◌≡◌, refl, some, [], ◌∷◌}
use aegis_keys_with_soteria.Table.Refinement.{perform, Follows, perform-Follows}
use aegis_keys_with_soteria.Users.{add, revoke}
use aegis_keys_with_soteria.Errors.{ok}
use aegis_keys_with_soteria.Errors.Effects.{World}
use aegis_keys_with_soteria.Primitives.{Bytes}
use aegis_keys_with_soteria.Table.{KeySlotTable, new_initial}
use aegis_keys_with_soteria.Table.Opens.{Opens}
use aegis_keys_with_soteria.Table.Runs.{perform_all, never_locked_out}
use aegis_keys_with_soteria.Tests.Toy.{toy, toy-IsLawful, toy-IsRobust}
use aegis_keys_with_soteria.Tests.Volume.{master, alice, bob, table, table-Held, accepts}

perform-Follows_example :
    Follows master (some alice ∷ some bob ∷ []) (revoke 1) (perform master (revoke 1) table 0)
perform-Follows_example =
    perform-Follows master (some alice ∷ some bob ∷ []) table 0 table-Held toy-IsLawful toy-IsRobust
      (revoke 1) refl

never_locked_out_example :
    (t : KeySlotTable) × (v : World) × (new_initial master alice 0 ≡ (ok t, v))
    × ((p : Bytes) × (n : ℕ) × Opens
          (perform_all master (add bob ∷ revoke 0 ∷ revoke 1 ∷ revoke 7 ∷ []) t v).0
          p
          n
          master)
never_locked_out_example =
    never_locked_out master toy-IsLawful toy-IsRobust refl alice
      (add bob ∷ revoke 0 ∷ revoke 1 ∷ revoke 7 ∷ []) 0 (accepts alice)
