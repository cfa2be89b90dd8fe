-- ===== src/Book/Ladder/Requantified.antt =====
-- A side stays in order when the quantity of an order changes, and when messages are sent.
use low_latency_trading_engi.Base.{
  ℕ, ◌<◌, ◌≡◌, sym, ap, ◌∙◌, subst, List, [], ◌∷◌, All, some, true, fun_ext,
}
use mathlib.Core.Path.{subst₂}
use low_latency_trading_engi.Types.{Side}
use low_latency_trading_engi.Ring.{IsRing}
use low_latency_trading_engi.Book.{MeOrder, State, order_at, best_of, price_to_index, in_client_map}
use low_latency_trading_engi.Book.Ladder.{Level, IsOrderOf, IsLevel, IsLinked, IsBookSide, places}

-- All of an order but its quantity.
abbrev pub key : MeOrder → MeOrder
key o = record o { qty = 0 }

-- Two states that differ only in the quantities of orders and in what was sent.
pub record SameButQty (s s' : State) : Type 0 where
  pub keys : (z : ℕ) → key (order_at s' z) ≡ key (order_at s z)
  pub marks : (z : ℕ) → (s'.order_pool.store z).is_free ≡ (s.order_pool.store z).is_free
  pub orders_size : s'.order_pool.store_size ≡ s.order_pool.store_size
  pub levels : s'.orders_at_price_pool ≡ s.orders_at_price_pool
  pub prices : s'.price_orders_at_price ≡ s.price_orders_at_price
  pub bids : s'.bids_by_price ≡ s.bids_by_price
  pub asks : s'.asks_by_price ≡ s.asks_by_price

module _ (s s' : State) (sd : Side) (f : SameButQty s s') where
  IsOrderOf-requantified : (l q : ℕ) → IsOrderOf s sd l q → IsOrderOf s' sd l q
  IsOrderOf-requantified l q (r, side) =
      let same = sym (f.keys q) in
      (
        record {
          level =
              subst (λ o. s'.price_orders_at_price (price_to_index o.price) ≡ some l) same
                (subst (λ m. m (price_to_index (order_at s q).price) ≡ some l) (sym f.prices)
                  r.level);
          mapped = subst (λ o. in_client_map o.client_id o.client_order_id ≡ true) same r.mapped;
          inside = subst (λ n. q < n) (sym f.orders_size) r.inside;
          used = f.marks q ∙ r.used;
        },
        ap (λ o. o.side) (f.keys q) ∙ side,
      )

  orders-requantified :
      (l : ℕ) (xs : List ℕ) → All (IsOrderOf s sd l) xs → All (IsOrderOf s' sd l) xs
  orders-requantified l [] h = tt
  orders-requantified l (x ∷ xs) h = (IsOrderOf-requantified l x h.0, orders-requantified l xs h.1)

  levels-requantified : (ls : List Level) → All (IsLevel s sd) ls → All (IsLevel s' sd) ls
  levels-requantified [] h = tt
  levels-requantified (l ∷ ls) (v, h) = (
    record {
      queue = record {
        first = ap (λ p. (p.store l.at).object.first_me_order) f.levels ∙ v.queue.first;
        ring =
            subst₂ (λ n p. IsRing n p l.head l.behind)
              (fun_ext λ z. sym (ap (λ o. o.next_order) (f.keys z)))
              (fun_ext λ z. sym (ap (λ o. o.prev_order) (f.keys z))) v.queue.ring;
      };
      orders = orders-requantified l.at (l.head ∷ l.behind) v.orders;
      inside = subst (λ p. l.at < p.store_size) (sym f.levels) v.inside;
      used = ap (λ p. (p.store l.at).is_free) f.levels ∙ v.used;
    },
    levels-requantified ls h,
  )

  best_same : best_of s' sd ≡ best_of s sd
  best_same = rw (f.bids, f.asks)

  IsLinked-requantified : (ls : List Level) → IsLinked s sd ls → IsLinked s' sd ls
  IsLinked-requantified [] h = best_same ∙ h
  IsLinked-requantified (l ∷ ls) h = (
    best_same ∙ h.0,
    subst
        (λ p.
          IsRing (λ z. (p.store z).object.next_entry) (λ z. (p.store z).object.prev_entry) l.at
            (places ls))
        (sym f.levels) h.1,
  )

  pub IsBookSide-requantified : (ls : List Level) → IsBookSide s sd ls → IsBookSide s' sd ls
  IsBookSide-requantified ls v = record {
    linked = IsLinked-requantified ls v.linked;
    levels = levels-requantified ls v.levels;
  }
