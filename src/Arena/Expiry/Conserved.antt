-- ===== src/Arena/Expiry/Conserved.antt =====
-- Settlement moves value and makes none: Settle of testbed/proxy/expiry.go.
use swiftward_alpaca_options.Prelude.{
  ℕ, ◌+◌, ◌-◌, ◌*◌, ◌/◌, ◌%◌, ◌<◌, ◌≡◌, sym, ap, ◌∙◌, true, false, some, inl, inr, ltb, Bool-cases,
  arith,
}
use swiftward_alpaca_options.Prelude.Int.{
  ℤ, pos, ◌+ℤ◌, neg, scale, scale-neg, scale_parts, pos_part, neg_part, int_laws,
}
use swiftward_alpaca_options.Prelude.Text.{Text, text_eq}
use swiftward_alpaca_options.Market.Symbol.{Kind, call, put}
use swiftward_alpaca_options.Market.Payoff.{intrinsic}
use swiftward_alpaca_options.Execution.Price.{round_ℕ}
use swiftward_alpaca_options.Arena.Order.{option, equity, Position}
use swiftward_alpaca_options.Arena.Contract.{Occ, parse_occ}
use swiftward_alpaca_options.Arena.Account.{move}
use swiftward_alpaca_options.Arena.Book.{Book}
use swiftward_alpaca_options.Arena.Expiry.{
  find_position, delete, worth_of, shares_of, money_of, is_cash_settled, settle_contract, settle,
}
use swiftward_alpaca_options.Arena.Expiry.Holdings.{
  AreApart, AreShares, All-delete, find_position_symbol, unit_worth, holdings, wealth,
  holdings-delete, holdings-move, holdings-mark_held,
}
use mathlib.Core.Path.{subst}

distributes : (m n x : ℕ) → (m + n) * x ≡ m * x + n * x
distributes m n x = grind arith

scale_plus : (m n : ℕ) (a : ℤ) → scale (m + n) a ≡ scale m a +ℤ scale n a
scale_plus m n a =
    let p = distributes m n (pos_part a) in
    let q = distributes m n (neg_part a) in omega (int_laws, p, q)

hundreds : (n x : ℕ) → n * (100 * x) ≡ n * 100 * x
hundreds n x = grind arith

scale-scale : (n : ℕ) (a : ℤ) → scale n (scale 100 a) ≡ scale (n * 100) a
scale-scale n a =
    let p : n * (pos_part (scale 100 a) + 100 * neg_part a)
        ≡ n * (neg_part (scale 100 a) + 100 * pos_part a) =
      (λ i. n * (scale_parts 100 a i)) in
    omega int_laws

module _ (under : Text → ℕ) where
  assoc : (a b c : ℤ) → a +ℤ b +ℤ c ≡ a +ℤ (b +ℤ c)
  assoc a b c = omega int_laws

  -- A contract in the money is worth the shares that it brings, less the strike that they cost.
  exercise_fair :
      (kind : Kind) (strike price : ℕ) (q : ℤ)
      → 0 < intrinsic kind strike price
      → scale (100 * intrinsic kind strike price) q
        ≡ money_of kind strike q +ℤ scale price (shares_of kind q)
  unfolding intrinsic
  exercise_fair call strike price q h = taken _ _ _ (
      scale-scale price q
      ∙ ap (λ n. scale n q) (in_hundreds price strike h)
      ∙ scale_plus (100 * (price - strike)) (strike * 100) q)
    where
      taken : (a b c : ℤ) → c ≡ a +ℤ b → a ≡ neg b +ℤ c
      taken a b c e = rw e (omega int_laws)

      in_hundreds : (m n : ℕ) → 0 < m - n → m * 100 ≡ 100 * (m - n) + n * 100
      in_hundreds m n h = omega arith
  exercise_fair put strike price q h =
      taken _ _ _ (
        ap (λ n. scale n q) (in_hundreds strike price h)
        ∙ scale_plus (100 * (strike - price)) (price * 100) q
        ∙ ap (λ v. scale (100 * (strike - price)) q +ℤ v) (sym (scale-scale price q)))
      ∙ ap (λ v. scale (strike * 100) q +ℤ v) (sym (scale-neg price (scale 100 q)))
    where
      taken : (a b c : ℤ) → b ≡ a +ℤ c → a ≡ b +ℤ neg c
      taken a b c e = rw e (omega int_laws)

      in_hundreds : (m n : ℕ) → 0 < m - n → m * 100 ≡ 100 * (m - n) + n * 100
      in_hundreds m n h = omega arith

  -- What a share of a contract is worth, to the cent, is what it is worth where prices are in cents.
  worth_of-cents :
      (c : Occ) (price : ℕ)
      → intrinsic c.kind c.strike price % 10 ≡ 0
      → worth_of c price ≡ intrinsic c.kind c.strike price
  unfolding round_ℕ
  worth_of-cents c price e = rounded (intrinsic c.kind c.strike price) e
    where
      rounded : (n : ℕ) → n % 10 ≡ 0 → 10 * ((2 * n + 10 * 1) / (20 * 1)) ≡ n
      rounded n e = omega (arith, e)

  settled-contract :
      (book : Book) (p : Position) (c : Occ) (now : ℕ)
      → find_position p.symbol book.positions ≡ some p
      → AreApart book.positions
      → AreShares c.root book.positions
      → p.class ≡ option
      → parse_occ p.symbol ≡ some c
      → intrinsic c.kind c.strike (under c.root) % 10 ≡ 0
      → wealth under (settle_contract book p c (under c.root) now).0 ≡ wealth under book
  unfolding settle_contract unit_worth
  settled-contract book p c now found apart shares class read cents =
      let rest = delete p.symbol book.positions in
      let each : ℕ = 100 * intrinsic c.kind c.strike (under c.root) in
      let whole_book : wealth under book
          ≡ book.cash +ℤ (scale each p.quantity +ℤ holdings under rest) =
        (ap (λ v. book.cash +ℤ v) (holdings-delete under p.symbol book.positions p found apart)
          ∙ (λ i.
              book.cash
              +ℤ (scale (unit_worth under (class i) (read i) p.symbol) p.quantity
                  +ℤ holdings under rest))) in
      let before = sym whole_book in
      let value = worth_of-cents c (under c.root) cents in
      elim (Bool-cases (ltb (worth_of c (under c.root)) 10)) [
        | inl empty ↦
            let nothing : intrinsic c.kind c.strike (under c.root) ≡ 0 =
              small _ _ value cents empty in
            rw empty (lost book.cash (holdings under rest) nothing ∙ before)
        | inr more ↦ elim (Bool-cases (is_cash_settled c.root)) [
          | inl cash ↦ rw (more, cash) (paid book.cash (holdings under rest) value ∙ before)
          | inr shares_come ↦
              rw (more, shares_come)
                (ap (λ v. book.cash +ℤ money_of c.kind c.strike p.quantity +ℤ v)
                    (holdings-mark_held under c.root (pos (under c.root))
                        (move c.root equity (shares_of c.kind p.quantity) (pos c.strike) rest)
                      ∙ holdings-move under c.root (shares_of c.kind p.quantity) (pos c.strike) rest
                          (All-delete (λ one. text_eq one.symbol c.root ≡ true → one.class ≡ equity)
                            p.symbol book.positions shares))
                  ∙ gather book.cash _ _ (holdings under rest)
                  ∙ ap (λ v. book.cash +ℤ (v +ℤ holdings under rest))
                      (sym (
                        exercise_fair c.kind c.strike (under c.root) p.quantity
                          (some_value _ _ value more)))
                  ∙ before)
        ]
      ]
    where
      q : ℤ
      q = p.quantity

      small : (n m : ℕ) → n ≡ m → m % 10 ≡ 0 → ltb n 10 ≡ true → m ≡ 0
      small n m e f h = ground arith

      some_value : (n m : ℕ) → n ≡ m → ltb n 10 ≡ false → 0 < m
      some_value n m e h = ground arith

      lost :
          (a b : ℤ)
          → intrinsic c.kind c.strike (under c.root) ≡ 0
          → a +ℤ b ≡ a +ℤ (scale (100 * intrinsic c.kind c.strike (under c.root)) q +ℤ b)
      lost a b e = rw e (omega int_laws)

      paid :
          (a b : ℤ)
          → worth_of c (under c.root) ≡ intrinsic c.kind c.strike (under c.root)
          → a +ℤ scale (worth_of c (under c.root) * 100) q +ℤ b
            ≡ a +ℤ (scale (100 * intrinsic c.kind c.strike (under c.root)) q +ℤ b)
      paid a b e = rw e (assoc a _ b ∙ ap (λ n. a +ℤ (scale n q +ℤ b)) (turned _))
        where
          turned : (n : ℕ) → n * 100 ≡ 100 * n
          turned n = omega arith

      gather : (a b c d : ℤ) → a +ℤ b +ℤ (c +ℤ d) ≡ a +ℤ (b +ℤ c +ℤ d)
      gather a b c d = omega int_laws

  -- At underlyings' prices at which the contract is worth whole cents, its settlement leaves the wealth
  -- of a book as it is, the cash, the contracts and the shares together: whether the contract ends
  -- worthless, is paid in cash or is turned into shares, for what is held and for what was sold. Each
  -- symbol has one position, what is held under the root is shares, and the symbol can be read.
  pub settle-wealth :
      (book : Book) (symbol : Text) (p : Position) (c : Occ) (now : ℕ)
      → find_position symbol book.positions ≡ some p
      → p.class ≡ option
      → parse_occ symbol ≡ some c
      → AreApart book.positions
      → AreShares c.root book.positions
      → intrinsic c.kind c.strike (under c.root) % 10 ≡ 0
      → wealth under (settle book symbol (under c.root) now).0 ≡ wealth under book
  unfolding settle
  settle-wealth book symbol p c now found class read apart shares cents =
      let name = find_position_symbol symbol book.positions p found in
      rw (found, read)
        (settled-contract book p c now
          (subst (λ s. find_position s book.positions ≡ some p) (sym name) found) apart shares class
          (ap parse_occ name ∙ read) cents)
