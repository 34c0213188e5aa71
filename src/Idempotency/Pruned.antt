-- ===== src/Idempotency/Pruned.antt =====
-- What pruning leaves: keys that are not dropped, entries from before a time.
use ai_agent_starter_kit.Idempotency.{
  Registry, is_expired, pop_all, drop_expired, ordered_keys, drop_overflow,
}
use ai_agent_starter_kit.Common.{
  ℕ, ◌-◌, ◌<◌, ◌≡◌, refl, inl, inr, false, not, ◌&&◌, List, [], ◌∷◌, arith, ltb, Bool-cases, length,
  take, All, All-filter, Text, text_eq_iff, elem,
}
use ai_agent_starter_kit.Common.Dict.{get, remove, get-remove, All-remove}

pub get-pop_all :
    (ks : List Text) (d : Registry) (key : Text)
    → elem key ks ≡ false
    → get (pop_all ks d) key ≡ get d key
unfolding pop_all elem
get-pop_all [] d key h = refl
get-pop_all (k ∷ ks) d key h = ground (
  arith,
  h,
  get-pop_all ks (remove d k) key,
  get-remove d k key,
  text_eq_iff k key,
  text_eq_iff key k,
)

-- The entries are from before a time.
abbrev pub AreBefore : ℕ → Registry → Type 0
AreBefore now d = All (λ e. e.1.created_at < now) d

pop_all-AreBefore :
    (ks : List Text) (d : Registry) (now : ℕ) → AreBefore now d → AreBefore now (pop_all ks d)
unfolding pop_all
pop_all-AreBefore [] d now h = h
pop_all-AreBefore (k ∷ ks) d now h =
    pop_all-AreBefore ks (remove d k) now (All-remove (λ e. e.1.created_at < now) d k h)

pub drop_expired-AreBefore :
    (ttl now : ℕ) (d : Registry) → AreBefore now d → AreBefore now (drop_expired ttl now d)
unfolding drop_expired
drop_expired-AreBefore ttl now d h = elim (Bool-cases (ltb 0 ttl)) [
  | inl c ↦ rw c (All-filter (λ e. e.1.created_at < now) (λ e. not (is_expired ttl now e.1)) d h)
  | inr c ↦ rw c h
]

pub drop_overflow-AreBefore :
    (cap now : ℕ) (d : Registry) → AreBefore now d → AreBefore now (drop_overflow cap d)
unfolding drop_overflow
drop_overflow-AreBefore cap now d h = elim (Bool-cases (ltb 0 cap && ltb cap (length d))) [
  | inl c ↦ rw c (pop_all-AreBefore (take (length d - cap) (ordered_keys d)) d now h)
  | inr c ↦ rw c h
]
