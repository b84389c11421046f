-- ===== src/Providers/Bodies.antt =====
-- `_bounded_body` of payment_webhooks.py.
use rental_property.Base.{
  ltb, false, Bool-cases, inl, inr, ℕ, ◌+◌, ◌≤◌, ◌<◌, ◌≡◌, refl, List, [], ◌∷◌, ◌++◌, arith,
}
use rental_property.Text.{Str, length}
use rental_property.Action.{ok, err, body_too_large}
use rental_property.Providers.Webhooks.{join_bounded, bounded_body, max_webhook_body_bytes}

-- `b"".join(chunks)`, and its length.
unfoldable pub joined : List Str → Str
joined [] = []
joined (c ∷ cs) = c ++ joined cs

unfoldable pub total_length : List Str → ℕ
total_length [] = 0
total_length (c ∷ cs) = length c + total_length cs

length-append : (s t : Str) → length (s ++ t) ≡ length s + length t
unfolding length
length-append [] t = ground arith
length-append (c ∷ s) t = ground (arith, length-append s t)

length-joined : (cs : List Str) → length (joined cs) ≡ total_length cs
unfolding joined total_length length
length-joined [] = refl
length-joined (c ∷ cs) = ground (arith, length-append c (joined cs), length-joined cs)

join_bounded-ok :
    (most n : ℕ) (cs : List Str)
    → n + total_length cs ≤ most
    → join_bounded most n cs ≡ ok (joined cs)
unfolding join_bounded joined total_length
join_bounded-ok most n [] h = refl
join_bounded-ok most n (c ∷ cs) h = ground (arith, join_bounded-ok most (n + length c) cs)

not_above : (a b : ℕ) → ltb a b ≡ false → b ≤ a
not_above a b e = ground arith

join_bounded-err :
    (most n : ℕ) (cs : List Str)
    → n ≤ most
    → most < n + total_length cs
    → join_bounded most n cs ≡ err body_too_large
unfolding join_bounded total_length
join_bounded-err most n [] few h = absurd (omega arith)
join_bounded-err most n (c ∷ cs) few h = elim (Bool-cases (ltb most (n + length c))) [
  | inl e ↦ rw e refl
  | inr e ↦
      rw
        (e, join_bounded-err most (n + length c) cs (not_above most (n + length c) e) (omega arith))
        refl
]

-- A body is taken whole exactly when its chunks are at most 64 KiB long together, wherever the
-- chunks are cut, and refused as too large otherwise.
pub bounded_body-total_length :
    (cs : List Str)
    → (total_length cs ≤ max_webhook_body_bytes
        → (bounded_body cs ≡ ok (joined cs)) × (length (joined cs) ≤ max_webhook_body_bytes))
      × (max_webhook_body_bytes < total_length cs → bounded_body cs ≡ err body_too_large)
unfolding bounded_body
bounded_body-total_length cs = (
  λ h. (join_bounded-ok max_webhook_body_bytes 0 cs (omega arith), rw (length-joined cs) h),
  λ h. join_bounded-err max_webhook_body_bytes 0 cs (omega arith) (omega arith),
)
