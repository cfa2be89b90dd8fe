-- ===== src/Ring/Edit.antt =====
-- What appending a node to a ring and taking one out of it do to the circle of nodes.
use low_latency_trading_engi.Base.{
  ℕ, ◌≡◌, refl, ◌≢◌, true, false, Option, some, List, [], ◌∷◌, ◌++◌, arith, append-nil,
}
use low_latency_trading_engi.Ring.{
  has, Distinct, last, has-append, has-append_inv, has-last, Links, IsRing, Links-append,
  Links-split, Links-frame, Links-retarget, head_or,
}

Distinct-snoc : (xs : List ℕ) (q : ℕ) → Distinct xs → has q xs ≡ false → Distinct (xs ++ (q ∷ []))
Distinct-snoc [] q d h = (refl, tt)
Distinct-snoc (x ∷ xs) q d h =
    (has-append x xs (q ∷ []) d.0 (ground arith), Distinct-snoc xs q d.1 (ground arith))

-- The parts of a list without repetition have no node in common.
pub Distinct-parts :
    (xs : List ℕ) (q : ℕ) (ys : List ℕ)
    → Distinct (xs ++ (q ∷ ys))
    → Distinct xs
      × (has q xs ≡ false)
      × Distinct (q ∷ ys)
      × Distinct (xs ++ ys)
      × ((z : ℕ) → has z xs ≡ true → has z (q ∷ ys) ≡ false)
Distinct-parts [] q ys d = (tt, refl, d, d.1, λ z h. absurd (cc))
Distinct-parts (x ∷ xs) q ys d =
    let (dx, hq, dq, dd, apart) = Distinct-parts xs q ys d.1 in
    let out = has-append_inv x xs (q ∷ ys) d.0 in
    (
      (out.0, dx),
      ground arith,
      dq,
      (has-append x xs ys out.0 (ground arith), dd),
      λ z h. ground (arith, apart z),
    )

-- The pointers of all nodes but `a` and `q` are kept.
abbrev pub SameBut : (f f' : ℕ → Option ℕ) → ℕ → ℕ → Type 0
SameBut f f' a q = (z : ℕ) → z ≢ a → z ≢ q → f' z ≡ f z

module _ (n p n' p' : ℕ → Option ℕ) (x : ℕ) (xs : List ℕ) (ring : IsRing n p x xs) where
  open ring use {links, distinct}

  -- Four pointers put a new node behind the last one.
  pub append-IsRing :
      (q : ℕ)
      → has q (x ∷ xs) ≡ false
      → n' (last x xs) ≡ some q
      → p' q ≡ some (last x xs)
      → n' q ≡ some x
      → p' x ≡ some q
      → SameBut n n' (last x xs) q
      → SameBut p p' x q
      → IsRing n' p' x (xs ++ (q ∷ []))
  append-IsRing q out nl pq nq px sn sp = record {
    links =
        Links-append n' p' x xs q [] x
          (Links-retarget n p n' p' x xs x q links distinct (λ z h ne. sn z ne (λ e. ground arith))
            (λ z h. sp z (λ e. ground arith) (λ e. ground arith)) nl pq)
          (nq, px);
    distinct = Distinct-snoc (x ∷ xs) q distinct out;
  }

-- Two pointers close the gap that a node behind the head leaves.
module _ (n p n' p' : ℕ → Option ℕ) (x q : ℕ) (ls : List ℕ) where
  remove-Links :
      (rs : List ℕ)
      → IsRing n p x (ls ++ (q ∷ rs))
      → n' (last x ls) ≡ some (head_or x rs)
      → p' (head_or x rs) ≡ some (last x ls)
      → SameBut n n' (last x ls) q
      → SameBut p p' (head_or x rs) q
      → Links n' p' x (ls ++ rs) x
  remove-Links [] ring nl pa sn sp =
      let (dl, hq, dq, dd, apart) = Distinct-parts (x ∷ ls) q [] ring.distinct in
      rw append-nil (
        Links-retarget n p n' p' x ls q x (Links-split n p x ls q [] x ring.links).0 dl
          (λ z h ne. sn z ne (λ e. ground (arith, apart z h)))
          (λ z h. sp z (λ e. ground arith) (λ e. ground (arith, apart z))) nl pa)
  remove-Links (c ∷ cs) ring nl pa sn sp =
      let (dl, hq, dq, dd, apart) = Distinct-parts (x ∷ ls) q (c ∷ cs) ring.distinct in
      let (front, back) = Links-split n p x ls q (c ∷ cs) x ring.links in
      let lq : has (last x ls) (q ∷ c ∷ cs) ≡ false = apart (last x ls) (has-last x ls) in
      let xq : has x (q ∷ c ∷ cs) ≡ false = apart x (ground arith) in
      Links-append n' p' x ls c cs x
        (Links-retarget n p n' p' x ls q c front dl
          (λ z h ne. sn z ne (λ e. ground (arith, apart z h)))
          (λ z h. sp z (λ e. ground (arith, apart z)) (λ e. ground (arith, apart z))) nl pa)
        (Links-frame n p n' p' c cs x back.2 (λ z h. sn z (λ e. ground arith) (λ e. ground arith))
          (λ z h. sp z (λ e. ground arith) (λ e. ground arith))
          (sp x (λ e. ground arith) (λ e. ground arith)))

  pub remove-IsRing :
      (rs : List ℕ)
      → IsRing n p x (ls ++ (q ∷ rs))
      → n' (last x ls) ≡ some (head_or x rs)
      → p' (head_or x rs) ≡ some (last x ls)
      → SameBut n n' (last x ls) q
      → SameBut p p' (head_or x rs) q
      → IsRing n' p' x (ls ++ rs)
  remove-IsRing rs ring nl pa sn sp =
      let (dl, hq, dq, dd, apart) = Distinct-parts (x ∷ ls) q rs ring.distinct in
      record { links = remove-Links rs ring nl pa sn sp; distinct = dd }

-- Taking out the head makes the second node the head.
pub remove_head-IsRing :
    (n p n' p' : ℕ → Option ℕ) (x y : ℕ) (ys : List ℕ)
    → IsRing n p x (y ∷ ys)
    → n' (last y ys) ≡ some y
    → p' y ≡ some (last y ys)
    → SameBut n n' (last y ys) x
    → SameBut p p' y x
    → IsRing n' p' y ys
remove_head-IsRing n p n' p' x y ys ring nl py sn sp = record {
  links =
      Links-retarget n p n' p' y ys x y ring.links.2 ring.distinct.1
        (λ z h ne. sn z ne (λ e. ground arith))
        (λ z h. sp z (λ e. ground arith) (λ e. ground arith)) nl py;
  distinct = ring.distinct.1;
}

-- The same circle, entered at its last node.
pub turn-IsRing :
    (n p : ℕ → Option ℕ) (x : ℕ) (xs : List ℕ) (q : ℕ)
    → IsRing n p x (xs ++ (q ∷ []))
    → IsRing n p q (x ∷ xs)
turn-IsRing n p x xs q ring =
    let (front, back) = Links-split n p x xs q [] x ring.links in
    let (dl, out, dq, dd, apart) = Distinct-parts (x ∷ xs) q [] ring.distinct in
    record { links = (back.0, back.1, front); distinct = (out, dl) }
