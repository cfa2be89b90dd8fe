-- ===== src/Book/Text/Whole.antt =====
-- What `toString` of exchange/matcher/me_order_book.cpp prints of a whole book in order, and the
-- destructor, which prints it for the log.
use low_latency_trading_engi.Base.{
  ◌≡◌, refl, ap, ◌∙◌, Bool, true, false, none, List, [], ◌∷◌, ◌++◌, Result, ok, bind_result,
}
use low_latency_trading_engi.Types.{Side, ClientId, OrderId}
use low_latency_trading_engi.Types.Text.{ticker_id_to_string}
use low_latency_trading_engi.Book.{State}
use low_latency_trading_engi.Book.Text.{
  Stream, side_to_text, price_min, price_max, book_to_string, destroy,
}
use low_latency_trading_engi.Book.Ladder.{Level, IsBookSide}
use low_latency_trading_engi.Book.Text.Printing.{IsSorted, side_lines, side_to_text-lines}

abbrev emptied_book : State → State
emptied_book s = record s {
  book = record s.book {
    bids_by_price = none;
    asks_by_price = none;
    cid_oid_to_order = λ _ _. none;
  };
}

module _ (detailed : Bool) (s : State) where
  abbrev book_lines : Stream → Stream → Stream
  book_lines asks bids =
      ("Ticker:" ∷ ticker_id_to_string s.ticker_id ∷ "\n" ∷ [])
      ++ asks
      ++ ("\n" ∷ "                          X" ∷ "\n" ∷ "\n" ∷ [])
      ++ bids

  abbrev after_bids : Stream → Result (Stream × State) → Result (Stream × State)
  after_bids asks r = bind_result r (λ x. ok (book_lines asks x.0, x.1))

  abbrev after_asks : Result (Stream × State) → Result (Stream × State)
  after_asks r =
      bind_result r
        (λ x. after_bids x.0 (side_to_text detailed true Side.buy s.bids_by_price price_max x.1))

  book_to_string-lines :
      (asks bids : List Level)
      → IsBookSide s Side.sell asks
      → IsBookSide s Side.buy bids
      → IsSorted s Side.sell price_min asks
      → IsSorted s Side.buy price_max bids
      → book_to_string detailed true s
        ≡ ok (
          book_lines
              (side_lines detailed s Side.sell 0 asks)
              (side_lines detailed s Side.buy 0 bids),
          s,
        )
  unfolding book_to_string
  book_to_string-lines asks bids v w up down =
      ap after_asks (side_to_text-lines detailed s Side.sell price_min asks v up)
      ∙ ap (after_bids (side_lines detailed s Side.sell 0 asks))
          (side_to_text-lines detailed s Side.buy price_max bids w down)

-- The destructor of a book whose two sides are in order, with prices that go up for asks and down for
-- bids: its check for the log passes, and no pointer to a level or an order is left in the entry
-- points and in the clients' table; the pools stay as they are.
destroy-clears :
    (s : State) (asks bids : List Level)
    → IsBookSide s Side.sell asks
    → IsBookSide s Side.buy bids
    → IsSorted s Side.sell price_min asks
    → IsSorted s Side.buy price_max bids
    → (s' : State) × (destroy s ≡ ok (tt, s'))
      × (s'.bids_by_price ≡ none)
      × (s'.asks_by_price ≡ none)
      × ((c : ClientId) (o : OrderId) → s'.cid_oid_to_order c o ≡ none)
      × (s'.order_pool ≡ s.order_pool)
      × (s'.orders_at_price_pool ≡ s.orders_at_price_pool)
unfolding destroy
destroy-clears s asks bids v w up down = (
  emptied_book s,
  ap
      (λ r.
        bind_result {A = Stream × State} {B = Unit {0} × State} r (λ x. ok (tt, emptied_book x.1)))
      (book_to_string-lines false s asks bids v w up down),
  refl,
  refl,
  λ c o. refl,
  refl,
  refl,
)
