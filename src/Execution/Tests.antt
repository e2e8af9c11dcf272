-- ===== src/Execution/Tests.antt =====
-- The theorems about prices and names, applied to a credit of 1.20 that is worked down to 1.00.
use swiftward_alpaca_options.Prelude.{
  inr, ◌+◌, ◌≤◌, ◌≡◌, ◌⊎◌, refl, ap, Bool, true, false, some, [], ◌∷◌, arith, length,
}
use swiftward_alpaca_options.Prelude.Int.{ℤ, negsuc, neg, abs, ◌≤ℤ◌, ◌-ℤ◌, eqb_ℤ}
use swiftward_alpaca_options.Prelude.Text.{codes, cut_prefix, trim_space}
use mathlib.Core.Option.{some-injective}
use swiftward_alpaca_options.Execution.Price.{Stride, to_arrive, stride, toward}
use swiftward_alpaca_options.Execution.Price.Round.{IsCents}
use swiftward_alpaca_options.Execution.Price.Step.{IsStep, toward-step}
use swiftward_alpaca_options.Execution.Price.Arrival.{walk, walk_arrives, last_stride_arrives}
use swiftward_alpaca_options.Execution.Name.{
  read_price, name_for, split_by, is_semicolon, join, reservation, show, fits, name_limit,
  name_carrying, is_int64,
}
use swiftward_alpaca_options.Execution.Name.Carried.{reservation-name_carrying}
use swiftward_alpaca_options.Execution.Name.Kept.{
  IsKept, name_carrying-IsKept, length-name_carrying,
}
use swiftward_alpaca_options.Execution.Sample.{vertical}

named_fits : fits (name_for (negsuc 999)) (show 123 []) ≡ true
unfolding name_for neg
named_fits = refl

abbrev step_of : Stride
step_of = record { length = 200; parts = 3 }

stepped : IsStep step_of
stepped = record { whole = omega arith; cent = omega arith }

toward-step_example :
    let reached = toward (negsuc 1199) (negsuc 1049) step_of in
    IsCents reached
    × (((negsuc 1199 ≤ℤ reached) × (reached ≤ℤ negsuc 1049))
        ⊎ ((negsuc 1049 ≤ℤ reached) × (reached ≤ℤ negsuc 1199)))
    × (abs (negsuc 1049 -ℤ reached) + 10 ≤ abs (negsuc 1049 -ℤ negsuc 1199))
toward-step_example =
    toward-step (negsuc 1199) (negsuc 1049) step_of stepped refl refl (λ e. contra (ap eight e))
  where
    eight : ℤ → Bool
    eight a = eqb_ℤ a (negsuc 1049)

    contra : false ≡ true → ⊥
    contra e = cc

two_cents : abs (negsuc 1179 -ℤ negsuc 1199) ≡ 20
unfolding ◌-ℤ◌
two_cents = refl

walk_arrives_example : walk (negsuc 1179) (negsuc 1199) (step_of ∷ step_of ∷ []) ≡ negsuc 1179
walk_arrives_example =
    walk_arrives (negsuc 1179) (negsuc 1199) (step_of ∷ step_of ∷ []) refl refl
      (stepped, (stepped, tt)) (rw two_cents (omega arith))

last_stride_arrives_example :
    toward (negsuc 1199) (negsuc 999) (stride to_arrive 10 (negsuc 1199) (negsuc 999) 119 60)
    ≡ negsuc 999
last_stride_arrives_example =
    last_stride_arrives 10 (negsuc 1199) (negsuc 999) 119 60 (omega arith) refl

named : reservation vertical.client_id ≡ some (negsuc 999)
unfolding reservation cut_prefix read_price neg
named = refl

show_now : show 123 [] ≡ codes "123"
unfolding show
show_now = refl

reservation-name_carrying_example :
    reservation (name_carrying (codes "worst=-1.00;1") 123) ≡ reservation (codes "worst=-1.00;1")
reservation-name_carrying_example = reservation-name_carrying (codes "worst=-1.00;1") 123 room
  where
    room :
        (floor : ℤ)
        → reservation (codes "worst=-1.00;1") ≡ some floor
        → fits (name_for floor) (show 123 []) ≡ true
    room floor e = rw (← some-injective _ _ (rw named at e)) named_fits

name_parts : IsKept (split_by is_semicolon (codes "worst=-1.00;1")) (codes "worst=-1.00" ∷ [])
unfolding split_by is_int64 trim_space
name_parts = inr (codes "1", refl, refl)

kept_room : length (join (codes "worst=-1.00" ∷ [])) + 1 + length (show 123 []) ≤ name_limit
unfolding join
kept_room = rw show_now (omega arith)

name_carrying-IsKept_example :
    split_by is_semicolon (name_carrying (codes "worst=-1.00;1") 123)
    ≡ codes "worst=-1.00" ∷ show 123 [] ∷ []
unfolding join
name_carrying-IsKept_example =
    name_carrying-IsKept (codes "worst=-1.00;1") 123 (codes "worst=-1.00" ∷ []) name_parts refl
      kept_room

length-name_carrying_example : length (name_carrying (codes "worst=-1.00;1") 123) ≤ name_limit
length-name_carrying_example =
    length-name_carrying (codes "worst=-1.00;1") 123 (rw show_now (omega arith))
