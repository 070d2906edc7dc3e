-- ===== src/Market/Books.antt =====
-- internal/market/data.go: `BookManager`, the consolidated books by symbol.
--
-- `GetOrderBook` hands out the book itself, so its caller reads what it is at that time: a book is a
-- value here. The cache of the books is written and never read.
use text.Mathlib.Text.{◌==◌ as str_eq}
use text.Mathlib.TextEquality.{eq_iff}
use quant_finance_pipeline.Prelude.{
  ℕ, ◌≡◌, refl, sym, ap, ◌∙◌, String, true, List, [], ◌∷◌, map, Option, none, some, get_or,
  if◌then◌else◌, arith,
}
use quant_finance_pipeline.Prelude.Int.{pos}
use quant_finance_pipeline.Prelude.Dict.{lookup, insert, lookup-insert}
use quant_finance_pipeline.Models.Order
use quant_finance_pipeline.Models.Order.{OrderBookLevel}
use quant_finance_pipeline.Models.Market.{PriceLevel}
use quant_finance_pipeline.Market.{replace_levels}
use quant_finance_pipeline.Market.Updates.{Replaced, replace_levels-Replaced}

pub record OrderBook : Type 0 where
  pub symbol : String
  pub timestamp : ℕ
  pub bid_levels : List PriceLevel
  pub ask_levels : List PriceLevel
  pub last_update : ℕ
  pub sources : List (String × ℕ)

abbrev pub BookManager : Type 0
BookManager = List (String × OrderBook)

-- The arguments of `UpdateBook` but for the symbol, with the time of the call.
pub record BookUpdate : Type 0 where
  pub bids : List PriceLevel
  pub asks : List PriceLevel
  pub at : ℕ
  pub source : String
  pub now : ℕ

abbrev pub empty_book : String → ℕ → OrderBook
empty_book symbol timestamp = record {
  symbol = symbol;
  timestamp = timestamp;
  bid_levels = [];
  ask_levels = [];
  last_update = 0;
  sources = [];
}

unfoldable pub updated : BookUpdate → OrderBook → OrderBook
updated u book = record book {
  last_update = u.now;
  timestamp = u.at;
  sources = insert u.source u.at book.sources;
  bid_levels = replace_levels u.bids book.bid_levels;
  ask_levels = replace_levels u.asks book.ask_levels;
}

unfoldable pub update_book : String → BookUpdate → BookManager → BookManager
unfolding updated
update_book symbol u books =
    insert symbol (updated u (get_or (lookup symbol books) (empty_book symbol u.at))) books

abbrev pub get_order_book : String → BookManager → Option OrderBook
get_order_book symbol books = lookup symbol books

abbrev pub to_level : PriceLevel → OrderBookLevel
to_level l = record { price = l.price; quantity = pos l.quantity; order_count = l.order_count }

unfoldable pub get_snapshot : OrderBook → Order.OrderBook
get_snapshot b = record {
  symbol = b.symbol;
  timestamp = b.timestamp;
  bids = map to_level b.bid_levels;
  asks = map to_level b.ask_levels;
}

-- The levels of the book that a symbol has, none if it has no book.
abbrev pub sides : Option OrderBook → List PriceLevel × List PriceLevel
sides none = ([], [])
sides (some b) = (b.bid_levels, b.ask_levels)

-- The prices, quantities and counts of a side of a snapshot are those of these levels.
abbrev pub Showing : List PriceLevel → List OrderBookLevel → Type 0
Showing levels shown =
    (map (λ (l : OrderBookLevel). l.price) shown ≡ map (λ (l : PriceLevel). l.price) levels)
    × (map (λ (l : OrderBookLevel). l.quantity) shown
        ≡ map (λ (l : PriceLevel). pos l.quantity) levels)
    × (map (λ (l : OrderBookLevel). l.order_count) shown
        ≡ map (λ (l : PriceLevel). l.order_count) levels)

-- What a snapshot shows after an update: the levels given, or those that were there where none are.
abbrev pub Shows : BookUpdate → Option OrderBook → Order.OrderBook → Type 0
Shows u old s =
    (s.timestamp ≡ u.at)
    × ((bids : List PriceLevel) × Replaced u.bids (sides old).0 bids × Showing bids s.bids)
    × ((asks : List PriceLevel) × Replaced u.asks (sides old).1 asks × Showing asks s.asks)

to_level-Showing : (levels : List PriceLevel) → Showing levels (map to_level levels)
to_level-Showing [] = (refl, refl, refl)
to_level-Showing (l ∷ ls) =
    let (p, q, n) = to_level-Showing ls in
    (ap (λ x. l.price ∷ x) p, ap (λ x. pos l.quantity ∷ x) q, ap (λ x. l.order_count ∷ x) n)

side-Shown :
    (given old : List PriceLevel)
    → (levels : List PriceLevel) × Replaced given old levels
      × Showing levels (map to_level (replace_levels given old))
side-Shown given old = (
  replace_levels given old,
  replace_levels-Replaced given old,
  to_level-Showing (replace_levels given old),
)

snapshot-Shows :
    (symbol : String) (u : BookUpdate) (old : Option OrderBook)
    → Shows u old (get_snapshot (updated u (get_or old (empty_book symbol u.at))))
unfolding get_snapshot updated
snapshot-Shows symbol u none = (refl, side-Shown u.bids [], side-Shown u.asks [])
snapshot-Shows symbol u (some b) =
    (refl, side-Shown u.bids b.bid_levels, side-Shown u.asks b.ask_levels)

-- After UpdateBook the symbol has a book whose snapshot has the time given, and on each side the
-- prices, quantities and counts, in order, of the levels given, or where none are given of those that
-- were there (none without a book). Every other symbol has the book it had.
pub update_book-Shows :
    (symbol j : String) (u : BookUpdate) (books : BookManager)
    → ((book : OrderBook) × (get_order_book symbol (update_book symbol u books) ≡ some book)
        × Shows u (get_order_book symbol books) (get_snapshot book))
      × (get_order_book j (update_book symbol u books) ≡ (
          if str_eq symbol j
          then get_order_book symbol (update_book symbol u books)
          else get_order_book j books))
unfolding update_book
update_book-Shows symbol j u books =
    let book = updated u (get_or (lookup symbol books) (empty_book symbol u.at)) in
    let here : lookup symbol (insert symbol book books) ≡ some book =
      lookup-insert symbol symbol book books
      ∙ ap (λ b. if b then some book else lookup symbol books) (same symbol) in
    (
      (book, here, snapshot-Shows symbol u (lookup symbol books)),
      lookup-insert symbol j book books
          ∙ ap (λ o. if str_eq symbol j then o else lookup j books) (sym here),
    )
  where
    same : (s : String) → str_eq s s ≡ true
    same s = ground (arith, eq_iff s s)
