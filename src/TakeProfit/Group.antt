-- ===== src/TakeProfit/Group.antt =====
-- The structures that a holding is made of: Group and readSymbol of
-- golang/internal/takeprofit/step.go. What the source joins into the key of a map is compared part
-- by part; a holding has one position of a symbol.
use swiftward_alpaca_options.Prelude.{
  ℕ, ◌+◌, ◌-◌, ◌/◌, ◌%◌, Bool, true, false, not, ◌&&◌, ◌||◌, Option, none, some, List, [], ◌∷◌,
  ◌++◌, map, ltb, ◌==◌, if◌then◌else◌, length, take, drop,
}
use swiftward_alpaca_options.Prelude.Frac.{Frac}
use swiftward_alpaca_options.Prelude.Text.{Text, codes, text_eq, trim_space, to_upper}
use swiftward_alpaca_options.Market.Symbol.{Kind, call, put, Date, ◌>>=◌, parse_date, date_eq}
use swiftward_alpaca_options.Market.Exposure.{kind_eq}
use swiftward_alpaca_options.Market.Order.{Position}
use swiftward_alpaca_options.TakeProfit.{sets_in, credit_of, one_for_one}

pub record Key : Type 0 where
  pub underlying : Text
  pub expiration : Date
  pub kind : Kind

pub record Structure : Type 0 where
  pub key : Key
  pub legs : List Position
  -- Of one set, in mills.
  pub credit : Frac
  pub sets : ℕ

-- The letter of a contract, once it is in upper case.
abbrev pub kind_letter : ℕ → Option Kind
kind_letter c = if c == b'C' then some call else (if c == b'P' then some put else none)

abbrev pub some_underlying : Text → Option Text
some_underlying [] = none
some_underlying (c ∷ s) = some (c ∷ s)

abbrev pub read_parts : Text → Text → Option Key
read_parts under (y₁ ∷ y₂ ∷ m₁ ∷ m₂ ∷ d₁ ∷ d₂ ∷ k ∷ digits) = do
  root ← some_underlying under
  day ← parse_date y₁ y₂ m₁ m₂ d₁ d₂
  kind ← kind_letter k
  some (record { underlying = root; expiration = day; kind = kind })
read_parts under _ = none

-- readSymbol
unfoldable pub read_symbol : Text → Option Key
read_symbol text =
    let symbol = to_upper (trim_space text) in
    if ltb (length symbol) 15
    then none
    else read_parts (take (length symbol - 15) symbol) (drop (length symbol - 15) symbol)

abbrev pub key_eq : Key → Key → Bool
key_eq a b =
    text_eq a.underlying b.underlying && date_eq a.expiration b.expiration && kind_eq a.kind b.kind

abbrev pub two : ℕ → Text
two n = (b'0' + n / 10 % 10) ∷ (b'0' + n % 10) ∷ []

abbrev pub kind_name : Kind → Text
kind_name call = codes "call"
kind_name put = codes "put"

-- key, with the day as 2006-01-02.
unfoldable pub name_of : Key → Text
name_of key =
    key.underlying
    ++ codes "-"
    ++ two (key.expiration.year / 100)
    ++ two key.expiration.year
    ++ codes "-"
    ++ two key.expiration.month
    ++ codes "-"
    ++ two key.expiration.day
    ++ codes "-"
    ++ kind_name key.kind

-- strings.EqualFold of the asset class.
abbrev pub is_option : Position → Bool
is_option p =
    let class = to_upper p.asset_class in
    text_eq class (codes "US_OPTION") || text_eq class (codes "OPTION")

abbrev pub Holdings : Type 0
Holdings = List (Key × List Position)

unfoldable pub add_holding : Key → Position → Holdings → Holdings
add_holding key p [] = (key, p ∷ []) ∷ []
add_holding key p ((other, legs) ∷ rest) =
    let more = add_holding key p rest in
    if key_eq key other then (other, legs ++ p ∷ []) ∷ rest else (other, legs) ∷ more

abbrev pub held_if : Position → Option Key → Holdings → Holdings
held_if p none held = held
held_if p (some key) held = add_holding key p held

unfoldable pub holdings_from : Holdings → List Position → Holdings
holdings_from held [] = held
holdings_from held (p ∷ ps) =
    holdings_from (if is_option p then held_if p (read_symbol p.symbol) held else held) ps

-- Texts in the order of their bytes.
unfoldable pub before : Text → Text → Bool
before [] [] = false
before [] (b ∷ t) = true
before (a ∷ s) [] = false
before (a ∷ s) (b ∷ t) = let rest = before s t in ltb a b || ((a == b) && rest)

unfoldable pub insert_by {ℓ} : {A : Type ℓ} → (A → Text) → A → List A → List A
insert_by name a [] = a ∷ []
insert_by name a (b ∷ bs) =
    let later = insert_by name a bs in if before (name b) (name a) then b ∷ later else a ∷ b ∷ bs

unfoldable pub sort_by {ℓ} : {A : Type ℓ} → (A → Text) → List A → List A
sort_by name [] = []
sort_by name (a ∷ rest) = insert_by name a (sort_by name rest)

abbrev pub structure_of : Key → List Position → Structure
structure_of key held =
    let legs = sort_by (λ leg. leg.symbol) held in
    record { key = key; legs = legs; credit = credit_of legs; sets = sets_in legs }

-- The structures with a set at least, those of one sold and one bought leg or the others.
unfoldable pub chosen : Bool → Holdings → List Structure
chosen paired [] = []
chosen paired ((key, held) ∷ rest) =
    let one = structure_of key held in
    let others = chosen paired rest in
    let is_paired = one_for_one one.legs in
    if ltb 0 one.sets && (if paired then is_paired else not is_paired) then one ∷ others else others

-- Group: what can be read as one structure, and the names of what cannot.
unfoldable pub group : List Position → List Structure × List Text
group held =
    let by = holdings_from [] held in
    (
      sort_by (λ one. name_of one.key) (chosen true by),
      sort_by (λ name. name) (map (λ one. name_of one.key) (chosen false by)),
    )
