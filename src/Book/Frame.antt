-- ===== src/Book/Frame.antt =====
-- What removing an order leaves alone: the queues to the other components and the order id counter.
use low_latency_trading_engi.Base.{
  ℕ, ◌≡◌, ◌∙◌, Option, none, some, ok, arith, >>=-eq-ok, deref, gets, modify, ◌>>=◌, if◌then◌else◌,
  same_ptr,
}
use low_latency_trading_engi.Types.{Side, Price}
use low_latency_trading_engi.Book.{
  MeOrder, MeOrdersAtPrice, State, B, order, level, best_of, with_best, set_orders_at_price,
  deallocate_level, deallocate_order, get_orders_at_price,
}
use low_latency_trading_engi.Book.Levels.{unlink_level, remove_orders_at_price}
use low_latency_trading_engi.Book.Orders.{unlink_order, forget_order, remove_order}

-- What the rest of the exchange sees of a book.
pub record SameOutside (s s' : State) : Type 0 where
  pub responses : s'.outgoing_ogw_responses ≡ s.outgoing_ogw_responses
  pub updates : s'.outgoing_md_updates ≡ s.outgoing_md_updates
  pub next_id : s'.next_market_order_id ≡ s.next_market_order_id

abbrev pub Keeps : {A : Type 0} → B A → Type 0
Keeps {A} m = (s s' : State) (a : A) → m s ≡ ok (a, s') → SameOutside s s'

deallocate_level-Keeps : (p : ℕ) → Keeps (deallocate_level p)
unfolding deallocate_level
deallocate_level-Keeps p s s' a e = ground arith

deallocate_order-Keeps : (p : ℕ) → Keeps (deallocate_order p)
unfolding deallocate_order
deallocate_order-Keeps p s s' a e = ground arith

unlink_level-Keeps : (p : ℕ) (side : Side) (best : Option ℕ) → Keeps (unlink_level p side best)
unfolding unlink_level
unlink_level-Keeps p side best s s' a e = ground arith

unlink_order-Keeps : (p : ℕ) (l : Option ℕ) → Keeps (unlink_order p l)
unfolding unlink_order
unlink_order-Keeps p l s s' a e = ground arith

forget_order-Keeps : (p : ℕ) → Keeps (forget_order p)
unfolding forget_order
forget_order-Keeps p s s' a e = grind (arith, deallocate_order-Keeps)

Keeps-bind :
    {A C : Type 0} (m : B A) (f : A → B C) → Keeps m → ((a : A) → Keeps (f a)) → Keeps (m >>= f)
Keeps-bind m f km kf s s' c e =
    let (a, t, em, ef) = >>=-eq-ok m f s e in
    let before = km s t a em in
    let after = kf a t s' c ef in
    record {
      responses = after.responses ∙ before.responses;
      updates = after.updates ∙ before.updates;
      next_id = after.next_id ∙ before.next_id;
    }

entry_point-Keeps :
    (p : ℕ) (side : Side) (best : Option ℕ) (l : MeOrdersAtPrice)
    → Keeps (
        if same_ptr l.next_entry (some p)
        then modify (λ s. with_best s side none)
        else unlink_level p side best)
entry_point-Keeps p side best l s s' a e = ground (arith, unlink_level-Keeps p side best s s' a)

remove_orders_at_price-Keeps :
    (side : Side) (price : Price) → Keeps (remove_orders_at_price side price)
unfolding remove_orders_at_price get_orders_at_price
remove_orders_at_price-Keeps side price =
    Keeps-bind (gets (λ (s : State). best_of s side)) _ (λ s s' a e. ground arith)
      λ best.
        Keeps-bind (get_orders_at_price price) _ (λ s s' a e. ground arith)
          λ found.
            Keeps-bind (deref found) _ (λ s s' a e. ground arith)
              λ p.
                Keeps-bind (level p) _ (λ s s' a e. ground arith)
                  λ l. Keeps-bind _ _ (entry_point-Keeps p side best l) λ _.
                    Keeps-bind (set_orders_at_price price none) _ (λ s s' a e. ground arith)
                      λ _. deallocate_level-Keeps p

take_out-Keeps :
    (p : ℕ) (o : MeOrder) (l : Option ℕ)
    → Keeps (
        if same_ptr o.prev_order (some p)
        then remove_orders_at_price o.side o.price
        else unlink_order p l)
take_out-Keeps p o l s s' a e =
    ground
      (arith, remove_orders_at_price-Keeps o.side o.price s s' a, unlink_order-Keeps p l s s' a)

-- Removing an order from the book sends nothing and uses up no order id.
pub remove_order-SameOutside : (p : ℕ) → Keeps (remove_order p)
unfolding remove_order get_orders_at_price
remove_order-SameOutside p =
    Keeps-bind (order p) _ (λ s s' a e. ground arith)
      λ o.
        Keeps-bind (get_orders_at_price o.price) _ (λ s s' a e. ground arith)
          λ l. Keeps-bind _ _ (take_out-Keeps p o l) λ _. forget_order-Keeps p
