-- ===== src/Lib.antt =====
-- A ladder that works resting option orders, what it is limited by, and the paper exchange that it is
-- rehearsed on: the packages golang/internal/marketdata, golang/internal/execution and
-- golang/internal/takeprofit, and the order book of testbed/proxy.
--
-- A session places a multi-leg option order at a price and writes the worst price that it would
-- take into the order's name. The ladder then passes over the broker's orders again and again: it
-- cancels the orders that may lose too much, and moves the price of the others a step at a time
-- toward what the book shows, or toward the worst price if that comes first. What an order, or the
-- whole book, may lose is read off the payoff at expiry. The exchange keeps a book for each
-- participant, holds cash against the worst that its positions can do, and fills what stands from the
-- quotes of the real market.
--
-- The parts, and where they stand in the repository:
--   Market/Symbol     golang/internal/marketdata/symbol.go: ContractFrom, and the series (one
--                     underlying, one day) that positions are grouped by.
--   Market/Order      golang/internal/marketdata/marketdata.go: the records of a quote, a position
--                     and an order; Order.Active.
--   Market/Payoff     the payoff at expiry, and its slope; the least value over some points.
--   Market/Floor      where a payoff that is linear between strikes is least.
--   Market/Exposure   golang/internal/marketdata/exposure.go: AtRisk, WithoutAFloor, worstAtExpiry,
--                     RestingSides. A map of Go is an association list, in order of first use.
--   Execution/Price   golang/internal/execution/execution.go: round, Toward, worseThan, Showing and
--                     stride.
--   Execution/Name    golang/internal/execution/reservation.go: NameFor, NameCarrying, Reservation.
--   Execution/Checks  golang/internal/execution/toobig.go: OnlyCloses, OnlyOpens, Unbounded,
--                     WorstCase; and EdgeAt of execution.go.
--   Execution/Ages    execution.go: lifeOf, carried, forgetWhatIsDone, working.
--   Execution/Ladder  execution.go: step, with report, unbounded, tooBig, overBook and walk. A pass
--                     takes a state (the ages, the risk counted so far, the orders cancelled, and the
--                     list of what was asked of the broker and written down) through the orders.
--   TakeProfit        golang/internal/takeprofit/step.go: setsIn, gcd, oneForOne, BuyBack, and the
--                     legs of a closing order. TakeProfit/Group is Group and readSymbol;
--                     TakeProfit/Watch is step and consider, and share of takeprofit.go. The watch
--                     reads positions and orders of its own; it and the ladder meet only at the
--                     broker, where the ladder works the price of the closing orders too.
--   Arena/Order       testbed/proxy/book.go: the records of an order, a position and an event; parseCount,
--                     turnOf. Arena/Contract is parseOCC of risk.go.
--   Arena/Risk        testbed/proxy/risk.go: Worst, Requirement, Unbounded, over groups of contracts.
--   Arena/Account     book.go: apply, move, project and reserved, on the list of positions.
--   Arena/Book        book.go: Submit and Fill; Arena/Amend has Cancel, Replace, Note, MarkStand. A call
--                     returns the book after it and a refusal or an answer; Arena/Book/Calls has the
--                     calls as data, and runs a book through any history of them.
--   Arena/Day         book.go: ExpireDay, SetMarks, MarkClose and the readers.
--   Arena/Expiry      testbed/proxy/expiry.go: Due and Settle, and settle of the arena.
--   Arena/Match       testbed/proxy/match.go: executable and fill. Arena/Round is once, over all books.
--   Arena/Tools       testbed/proxy/tools.go: placeOrder and legsOf, from the texts of a call to Submit;
--                     Arena/Tools/Requests has replaceOrder, cancelOrder and getOrders.
--   Prelude           integers, texts and fractions that the parts share.
--
-- Money is a whole number of mills, thousandths of a dollar; a cent is ten. Where the source
-- divides, the model keeps an exact fraction: the step of a price is `length / parts` mills, a
-- worst case is over the order's quantity. So the rounding of floats is not modelled, and that
-- of prices to the cent is. Numbers of contracts are whole. Times are in nanoseconds.
-- Texts are lists of bytes, in ASCII. The numbers in names are in plain decimal notation.
-- ParseFloat, ParseInt, TrimSpace, Fields and time.Parse are modelled as far as the code uses
-- them. The broker and the record are parameters: each call is answered by a function of its
-- number and its arguments, so that any order of answers and of errors is allowed. So are the
-- limits, which a pass asks for at its start: absent, asked without an answer, or answered.
-- For the exchange the clock, the quotes, the last trades, the value of a holding, the reading of a
-- price, the stable sort of the standard library and the fresh identifier of an order are arguments.
-- A price that is read is a number, so the NaN that ParseFloat accepts does not occur. Its maps of orders and of positions are
-- lists, its tolerance of a billionth of a dollar in comparisons is none, and an average price is a
-- fraction. A new order comes with no identifier or with one that is not taken. What went wrong is a data
-- type, where the source has the words of a message. The ladder and the exchange meet at orders: the
-- name that the ladder gives to a replacement is the one that the exchange reads the turn from, and
-- both read the same contract symbols, each with its own reader.
-- The loops of the code run over the orders, the legs and the positions; here they are
-- structural recursion over the lists. The digits of a number are written out on fuel, one
-- more than the number itself, which is more than its digits; and gcd runs on one more than its
-- second number, which gets smaller with every turn.
--
-- Not modelled: the loops named Run, which call step on a ticker; the words of messages and of the log; the
-- broker's client; and the other packages, among them placement, screener, envelope,
-- mailbox and harness; the store of testbed/proxy, its lock (one call at a time is taken for granted),
-- its requests to the broker, the other tools, and the scenarios around the book.
pub mod Prelude
pub mod Market
pub mod Execution
pub mod TakeProfit
pub mod Arena
