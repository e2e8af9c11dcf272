-- ===== src/Arena/Day/Expired.antt =====
-- What the end of a session leaves: ExpireDay of testbed/proxy/book.go.
use swiftward_alpaca_options.Prelude.{
  ℕ, ◌≤◌, ◌≡◌, refl, ap, Bool, false, ◌&&◌, inl, inr, Option, none, some, List, [], ◌∷◌, arith,
  Bool-cases,
}
use swiftward_alpaca_options.Prelude.Text.{codes, text_eq}
use swiftward_alpaca_options.Arena.Order.{Order, is_open}
use swiftward_alpaca_options.Arena.Book.{Book}
use swiftward_alpaca_options.Arena.Day.{
  is_over, outlived, expired_at, expire_all, gone_of, expire_day,
}

-- What is over was over later, too.
outlived_earlier :
    (now later : ℕ) (order : Order)
    → now ≤ later
    → outlived later order ≡ false
    → outlived now order ≡ false
outlived_earlier now later order h e =
    by_end order.expires_at (is_open order) (text_eq order.time_in_force (codes "day")) e
  where
    by_end :
        (o : Option ℕ) (live day : Bool)
        → (live && day && is_over later o) ≡ false
        → (live && day && is_over now o) ≡ false
    by_end none live day e = e
    by_end (some end) live day e = ground arith

expire_all_left :
    (now earlier : ℕ) (orders : List Order)
    → earlier ≤ now
    → gone_of earlier (expire_all now orders) ≡ []
unfolding expire_all gone_of
expire_all_left now earlier [] h = refl
expire_all_left now earlier (order ∷ orders) h = elim (Bool-cases (outlived now order)) [
  | inl gone ↦ rw (gone, expire_all_left now earlier orders h) refl
  | inr stays ↦
      rw (stays, outlived_earlier earlier now order h stays, expire_all_left now earlier orders h)
        refl
]

expire_all_again :
    (now earlier : ℕ) (orders : List Order)
    → earlier ≤ now
    → expire_all earlier (expire_all now orders) ≡ expire_all now orders
unfolding expire_all
expire_all_again now earlier [] h = refl
expire_all_again now earlier (order ∷ orders) h = elim (Bool-cases (outlived now order)) [
  | inl gone ↦
      rw gone (ap (λ rest. expired_at now order ∷ rest) (expire_all_again now earlier orders h))
  | inr stays ↦
      rw (stays, outlived_earlier earlier now order h stays)
        (ap (λ rest. order ∷ rest) (expire_all_again now earlier orders h))
]

-- Once the day orders of a moment have expired, nothing is left for that moment, or an earlier one,
-- to expire: the book stays as it is, and no order is reported gone a second time.
pub expire_day_again :
    (book : Book) (now earlier : ℕ)
    → earlier ≤ now
    → let after = (expire_day book now).0 in expire_day after earlier ≡ (after, [])
unfolding expire_day
expire_day_again book now earlier h i = (
  record (expire_day book now).0 { orders = expire_all_again now earlier book.orders h i },
  expire_all_left now earlier book.orders h i,
)
