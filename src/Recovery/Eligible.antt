-- ===== src/Recovery/Eligible.antt =====
-- network_recovery.rs: the snapshots that tell of a mobile network which can be recovered, and the
-- answer of the probes.
use zwrt_datad.Prelude.{
  ℕ, ◌+◌, Bool, true, false, not, ◌&&◌, ◌||◌, Option, none, some, List, [], ◌∷◌, ◌++◌, ltb, leb,
  any, if◌then◌else◌,
}
use zwrt_datad.Prelude.Int.{ℤ, pos, negsuc}
use zwrt_datad.Prelude.Text.{Bytes, codes, text_eq, starts_with, uppercase}
use zwrt_datad.Json.{Value, bool, Fields, as_str, as_object, get}

abbrev network_kinds : List Bytes
network_kinds =
    codes "LTE"
    ∷ codes "5G"
    ∷ codes "SA"
    ∷ codes "NSA"
    ∷ codes "NR"
    ∷ codes "NR5G"
    ∷ codes "NR5G-SA"
    ∷ codes "NR5G-NSA"
    ∷ codes "LTE+NR"
    ∷ codes "WCDMA"
    ∷ codes "UMTS"
    ∷ codes "HSPA"
    ∷ codes "4G"
    ∷ codes "3G"
    ∷ []

-- `value[key]`, where a missing key is `Null`, which the callers below read as a missing one.
unfoldable pub index : Bytes → Option Value → Option Value
index key none = none
index key (some value) = elim (as_object value) [ none ↦ none | some fields ↦ get key fields ]

abbrev text_or_empty : Option Value → Bytes
text_or_empty none = []
text_or_empty (some value) = elim (as_str value) [ none ↦ [] | some text ↦ text ]

abbrev says_true : Option Value → Bool
says_true (some (bool true)) = true
says_true _ = false

unfoldable pub is_kind : Bytes → Bool
is_kind kind = any (λ v. text_eq kind v || starts_with (v ++ (b'_' ∷ [])) kind) network_kinds

-- Whether the times are 30 seconds apart at most; `now` is a `u64` and `ts` a positive `i64`.
unfoldable pub is_fresh : ℤ → ℕ → Bool
is_fresh (pos ts) now = ltb 0 ts && leb now (ts + 30) && leb ts (now + 30)
is_fresh (negsuc n) now = false

-- The arguments are the snapshot's time and fields.
unfoldable pub eligible : ℤ → Fields → ℕ → Bool
unfolding index is_kind is_fresh
eligible ts fields now =
    let net = get (codes "net") fields in
    is_fresh ts now
    && not (says_true (index (codes "radio_off") net))
    && is_kind (uppercase (text_or_empty (index (codes "type") net)))

-- The answers of the probes in the order in which they come.
unfoldable pub any_reachable : List Bool → Bool
any_reachable [] = false
any_reachable (reachable ∷ pending) = if reachable then true else any_reachable pending
