-- ===== src/MarketData/Streams/Partitions.antt =====
-- The partitions of a set of symbols: in order, none twice, and those of the symbols.
use swr_ddd.Common.{
  ℕ, zero, suc, ◌+◌, ◌≤◌, ◌<◌, Bool, true, false, ◌&&◌, ◌||◌, Option, none, some, List, [], ◌∷◌,
  ◌++◌, leb, ltb, ◌==◌, if◌then◌else◌, ◌≡◌, refl, ◌∙◌, arith, pos,
}
use swr_ddd.Common.Text.{Text}
use swr_ddd.MarketData.Streams.{
  among, insert_sorted, sorted, range_from, market_data_partition, distinct_partitions,
  partitions_for_realtime_subscribe,
}

-- each entry is above the one before it, and so none occurs twice
abbrev pub ascending_from : ℕ → List ℕ → Bool
ascending_from low [] = true
ascending_from low (p ∷ ps) = leb low p && ascending_from (suc p) ps

abbrev pub all_below : ℕ → List ℕ → Bool
all_below n [] = true
all_below n (p ∷ ps) = ltb p n && all_below n ps

abbrev pub distinct : List ℕ → Bool
distinct [] = true
distinct (p ∷ ps) = (if among p ps then false else true) && distinct ps

among-insert_sorted :
    (p q : ℕ) (qs : List ℕ) → among p (insert_sorted q qs) ≡ ((p == q) || among p qs)
unfolding among insert_sorted
among-insert_sorted p q [] = refl
among-insert_sorted p q (r ∷ qs) = ground (arith, among-insert_sorted p q qs)

pub among-sorted : (p : ℕ) (ps : List ℕ) → among p (sorted ps) ≡ among p ps
unfolding among sorted
among-sorted p [] = refl
among-sorted p (q ∷ ps) = ground (arith, among-insert_sorted p q (sorted ps), among-sorted p ps)

ascending-insert_sorted :
    (low p : ℕ) (qs : List ℕ)
    → low ≤ p
    → among p qs ≡ false
    → ascending_from low qs ≡ true
    → ascending_from low (insert_sorted p qs) ≡ true
unfolding among insert_sorted
ascending-insert_sorted low p [] h a s = ground arith
ascending-insert_sorted low p (q ∷ qs) h a s = ground (arith, ascending-insert_sorted (suc q) p qs)

sorted-ascending : (ps : List ℕ) → distinct ps ≡ true → ascending_from 0 (sorted ps) ≡ true
unfolding sorted
sorted-ascending [] d = refl
sorted-ascending (p ∷ ps) d =
    ascending-insert_sorted 0 p (sorted ps) (omega arith) (ground (arith, among-sorted p ps))
      (sorted-ascending ps (ground arith))

among-append : (p q : ℕ) (ps : List ℕ) → among p (ps ++ q ∷ []) ≡ (among p ps || (p == q))
unfolding among
among-append p q [] = ground arith
among-append p q (r ∷ ps) = ground (arith, among-append p q ps)

distinct-append :
    (q : ℕ) (ps : List ℕ) → among q ps ≡ false → distinct ps ≡ true → distinct (ps ++ q ∷ []) ≡ true
unfolding among
distinct-append q [] a d = refl
distinct-append q (r ∷ ps) a d = ground (arith, among-append r q ps, distinct-append q ps)

all_below-insert :
    (n p : ℕ) (qs : List ℕ)
    → p < n
    → all_below n qs ≡ true
    → all_below n (insert_sorted p qs) ≡ true
unfolding insert_sorted
all_below-insert n p [] h b = ground arith
all_below-insert n p (q ∷ qs) h b = ground (arith, all_below-insert n p qs)

all_below-sorted : (n : ℕ) (ps : List ℕ) → all_below n ps ≡ true → all_below n (sorted ps) ≡ true
unfolding sorted
all_below-sorted n [] b = refl
all_below-sorted n (p ∷ ps) b =
    all_below-insert n p (sorted ps) (ground arith) (all_below-sorted n ps (ground arith))

all_below-append :
    (n q : ℕ) (ps : List ℕ) → q < n → all_below n ps ≡ true → all_below n (ps ++ q ∷ []) ≡ true
all_below-append n q [] h b = ground arith
all_below-append n q (p ∷ ps) h b = ground (arith, all_below-append n q ps)

range_from-ascending : (low n : ℕ) → ascending_from low (range_from low n) ≡ true
unfolding range_from
range_from-ascending low zero = refl
range_from-ascending low (suc n) = ground (arith, range_from-ascending (suc low) n)

range_from-below : (low n m : ℕ) → m ≡ low + n → all_below m (range_from low n) ≡ true
unfolding range_from
range_from-below low zero m e = refl
range_from-below low (suc n) m e = ground (arith, range_from-below (suc low) n m (omega arith))

among-range_from : (p low n : ℕ) → among p (range_from low n) ≡ (leb low p && ltb p (low + n))
unfolding among range_from
among-range_from p low zero = ground arith
among-range_from p low (suc n) = ground (arith, among-range_from p (suc low) n)

module _ (crc32 : Text → ℕ) where
  -- a symbol of the list has the partition `p`
  abbrev pub has_partition : ℕ → List Text → ℕ → Bool
  has_partition p [] n = false
  has_partition p (sym ∷ symbols) n =
      (p == market_data_partition crc32 sym n) || has_partition p symbols n

  partition_below : (sym : Text) (n : ℕ) → market_data_partition crc32 sym (suc n) < suc n
  unfolding market_data_partition
  partition_below sym n = grind arith

  distinct_partitions-distinct :
      (symbols : List Text) (n : ℕ) (ordered : List ℕ)
      → distinct ordered ≡ true
      → distinct (distinct_partitions crc32 symbols n ordered) ≡ true
  unfolding distinct_partitions
  distinct_partitions-distinct [] n ordered d = d
  distinct_partitions-distinct (sym ∷ symbols) n ordered d =
      let p = market_data_partition crc32 sym n in
      distinct_partitions-distinct symbols n
        (if among p ordered then ordered else ordered ++ p ∷ [])
        (ground (arith, distinct-append p ordered))

  distinct_partitions-below :
      (symbols : List Text) (n : ℕ) (ordered : List ℕ)
      → all_below (suc n) ordered ≡ true
      → all_below (suc n) (distinct_partitions crc32 symbols (suc n) ordered) ≡ true
  unfolding distinct_partitions
  distinct_partitions-below [] n ordered b = b
  distinct_partitions-below (sym ∷ symbols) n ordered b =
      let p = market_data_partition crc32 sym (suc n) in
      distinct_partitions-below symbols n (if among p ordered then ordered else ordered ++ p ∷ [])
        (ground (arith, all_below-append (suc n) p ordered, partition_below sym n))

  among-distinct_partitions :
      (q : ℕ) (symbols : List Text) (n : ℕ) (ordered : List ℕ)
      → among q (distinct_partitions crc32 symbols n ordered)
        ≡ (among q ordered || has_partition q symbols n)
  unfolding distinct_partitions
  among-distinct_partitions q [] n ordered = ground arith
  among-distinct_partitions q (sym ∷ symbols) n ordered =
      let p = market_data_partition crc32 sym n in
      ground (
        arith,
        among-distinct_partitions q symbols n
            (if among p ordered then ordered else ordered ++ p ∷ []),
        among-append q p ordered,
      )

  -- What the worker asks of the partitions it reads. `wanted` is the independent description.
  abbrev pub wanted : ℕ → Option (List Text) → ℕ → Bool
  wanted p (some (sym ∷ symbols)) n = has_partition p (sym ∷ symbols) n
  wanted p _ n = ltb p n

  pub record IsSubscription (n : ℕ) (filter : Option (List Text)) (ps : List ℕ) : Type 0 where
    pub in_order : ascending_from 0 ps ≡ true
    pub in_range : all_below n ps ≡ true
    pub complete : (p : ℕ) → among p ps ≡ wanted p filter n

  whole_range-IsSubscription :
      (n : ℕ) (filter : Option (List Text))
      → ((p : ℕ) → wanted p filter n ≡ ltb p n)
      → IsSubscription n filter (range_from 0 n)
  whole_range-IsSubscription n filter w = record {
    in_order = range_from-ascending 0 n;
    in_range = range_from-below 0 n n (omega arith);
    complete = λ p. ground (arith, among-range_from p 0 n, w p);
  }

  -- For a count of at least one, the partitions that are read are in ascending order without
  -- repetition, below the count, and exactly those of the symbols, or all without a symbol.
  pub partitions-IsSubscription :
      (n : ℕ) (filter : Option (List Text))
      → IsSubscription (suc n) filter (partitions_for_realtime_subscribe crc32 (pos (suc n)) filter)
  unfolding partitions_for_realtime_subscribe
  partitions-IsSubscription n none = whole_range-IsSubscription (suc n) none (λ p. refl)
  partitions-IsSubscription n (some []) = whole_range-IsSubscription (suc n) (some []) (λ p. refl)
  partitions-IsSubscription n (some (sym ∷ symbols)) =
      let found = distinct_partitions crc32 (sym ∷ symbols) (suc n) [] in
      record {
        in_order =
            sorted-ascending found (distinct_partitions-distinct (sym ∷ symbols) (suc n) [] refl);
        in_range =
            all_below-sorted (suc n) found (distinct_partitions-below (sym ∷ symbols) n [] refl);
        complete =
            λ p. among-sorted p found ∙ among-distinct_partitions p (sym ∷ symbols) (suc n) [];
      }
