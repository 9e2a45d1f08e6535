-- ===== src/Ring/Invariant.antt =====
-- MpscRingAny.hpp: what holds between any two atomic accesses.
-- Positions in [enqueue_pos, released + cap) are free: their cell's number is the position.
-- Positions in [dequeue_pos, enqueue_pos) are taken: the number is the position until the producer
-- that claimed it publishes, and one more afterwards.
use log_it_cpp.Base.{
  ℕ, suc, refl, sym, ◌∙◌, inl, inr, ◌+◌, ◌%◌, ◌^◌, ◌≤◌, ◌<◌, ◌≡◌, ◌≢◌, ◌⊎◌, some, List, [], ◌∷◌,
  length, get_elem?, take, arith,
}
use log_it_cpp.Ring.{Ring, Producer, Consumer, System, Event, step}

-- The position whose cell the consumer gives back next.
abbrev pub released_by : ℕ → {T : Type 0} → Consumer T → ℕ
released_by d (Consumer.at_move p) = p
released_by d (Consumer.at_release p x) = p
released_by d Consumer.ready = d
released_by d Consumer.at_load = d
released_by d (Consumer.at_read p) = d
released_by d (Consumer.at_cas p) = d
released_by d (Consumer.returned r) = d
released_by d Consumer.fault = d

module _ {T : Type 0} where
  abbrev pub released : System T → ℕ
  released s = released_by s.dequeue_pos s.consumer

  -- A claimed position whose cell is not published yet.
  abbrev pub IsClaimed : Ring T → List T → ℕ → T → Type 0
  IsClaimed r claimed p v =
      (r.dequeue_pos ≤ p)
      × (p < r.enqueue_pos)
      × (r.seq (p % r.cap) ≡ p)
      × (get_elem? claimed p ≡ some v)

  -- `free_end` is the first position whose cell is not free yet.
  abbrev pub ProducerOk : Ring T → List T → ℕ → Producer T → Type 0
  ProducerOk r claimed free_end Producer.ready = Unit
  ProducerOk r claimed free_end (Producer.at_load v) = Unit
  ProducerOk r claimed free_end (Producer.at_read p v) = p ≤ r.enqueue_pos
  ProducerOk r claimed free_end (Producer.at_cas p v) = p < free_end
  ProducerOk r claimed free_end (Producer.at_construct p v) = IsClaimed r claimed p v
  ProducerOk r claimed free_end (Producer.at_publish p v) =
      IsClaimed r claimed p v × (r.storage (p % r.cap) ≡ some v)
  ProducerOk r claimed free_end (Producer.returned b) = Unit

  abbrev pub Owns : Producer T → ℕ → Type 0
  Owns Producer.ready q = ⊥
  Owns (Producer.at_load v) q = ⊥
  Owns (Producer.at_read p v) q = ⊥
  Owns (Producer.at_cas p v) q = ⊥
  Owns (Producer.at_construct p v) q = p ≡ q
  Owns (Producer.at_publish p v) q = p ≡ q
  Owns (Producer.returned b) q = ⊥

  -- A position that the consumer has won and whose cell it has not given back.
  abbrev pub IsTaken : Ring T → ℕ → Type 0
  IsTaken r p = (r.dequeue_pos ≡ suc p) × (p < r.enqueue_pos) × (r.seq (p % r.cap) ≡ suc p)

  abbrev pub ConsumerOk : Ring T → List T → Consumer T → Type 0
  ConsumerOk r claimed Consumer.ready = Unit
  ConsumerOk r claimed Consumer.at_load = Unit
  ConsumerOk r claimed (Consumer.at_read p) = p ≡ r.dequeue_pos
  ConsumerOk r claimed (Consumer.at_cas p) =
      (p ≡ r.dequeue_pos) × (p < r.enqueue_pos) × (r.seq (p % r.cap) ≡ suc p)
  ConsumerOk r claimed (Consumer.at_move p) =
      IsTaken r p × (r.storage (p % r.cap) ≡ get_elem? claimed p)
  ConsumerOk r claimed (Consumer.at_release p x) = IsTaken r p × (get_elem? claimed p ≡ some x)
  ConsumerOk r claimed (Consumer.returned o) = Unit
  ConsumerOk r claimed Consumer.fault = ⊥

  -- A taken cell is unpublished, or holds the value that was claimed for its position.
  abbrev pub IsBusy : Ring T → List T → ℕ → Type 0
  IsBusy r claimed p =
      (r.seq (p % r.cap) ≡ p)
      ⊎ ((r.seq (p % r.cap) ≡ suc p) × (r.storage (p % r.cap) ≡ get_elem? claimed p))

  pub record IsValid (s : System T) : Type 0 where
    pub two_cells : 2 ≤ s.cap
    pub popped_first : s.dequeue_pos ≤ s.enqueue_pos
    pub within_cap : s.enqueue_pos ≤ released s + s.cap
    pub counted : length s.claimed ≡ s.enqueue_pos
    pub bounded : (k : ℕ) → k < s.cap → s.seq k ≤ s.enqueue_pos + s.cap
    pub no_lag : (p : ℕ) → p < released s + s.cap → p ≤ s.seq (p % s.cap)
    pub free : (p : ℕ) → s.enqueue_pos ≤ p → p < released s + s.cap → s.seq (p % s.cap) ≡ p
    pub busy : (p : ℕ) → s.dequeue_pos ≤ p → p < s.enqueue_pos → IsBusy s.ring s.claimed p
    pub producers_ok : (i : ℕ) → ProducerOk s.ring s.claimed (released s + s.cap) (s.producers i)
    pub distinct : (i j p : ℕ) → i ≢ j → Owns (s.producers i) p → ¬ Owns (s.producers j) p
    pub consumer_ok : ConsumerOk s.ring s.claimed s.consumer
    pub in_order : s.popped ≡ take (released s) s.claimed

  -- The positions have not come near the sign bit of `std::intptr_t`.
  abbrev pub Fits : System T → Type 0
  Fits s = s.enqueue_pos + s.cap + 1 < 2 ^ 63

  abbrev pub AllFit : System T → List (Event T) → Type 0
  AllFit s [] = Unit {0}
  AllFit s (e ∷ es) = Fits s × AllFit (step s e) es

  -- The consumer holds back at most one cell.
  released_bounds :
      (r : Ring T) (claimed : List T) (c : Consumer T)
      → ConsumerOk r claimed c
      → (released_by r.dequeue_pos c ≤ r.dequeue_pos)
        × (r.dequeue_pos ≤ released_by r.dequeue_pos c + 1)
  released_bounds r claimed Consumer.ready h = omega arith
  released_bounds r claimed (Consumer.at_move p) h = omega (arith, h.0.0)
  released_bounds r claimed (Consumer.at_release p x) h = omega (arith, h.0.0)
  released_bounds r claimed _ h = omega arith

  pub released-dequeue :
      {s : System T} → IsValid s → (released s ≤ s.dequeue_pos) × (s.dequeue_pos ≤ released s + 1)
  released-dequeue {s} v = released_bounds s.ring s.claimed s.consumer v.consumer_ok

  -- Two rings that agree on the cell of `q`, and on what was claimed for it.
  abbrev pub SameCell : Ring T → List T → Ring T → List T → ℕ → Type 0
  SameCell r claimed r' claimed' q =
      (r'.seq (q % r'.cap) ≡ r.seq (q % r.cap))
      × (r'.storage (q % r'.cap) ≡ r.storage (q % r.cap))
      × (get_elem? claimed' q ≡ get_elem? claimed q)

  module _ (r : Ring T) (claimed : List T) (r' : Ring T) (claimed' : List T) where
    pub IsBusy-same :
        (q : ℕ) → SameCell r claimed r' claimed' q → IsBusy r claimed q → IsBusy r' claimed' q
    IsBusy-same q same (inl e) = inl (same.0 ∙ e)
    IsBusy-same q same (inr (e, st)) = inr (same.0 ∙ e, same.1 ∙ st ∙ sym same.2)

    pub ProducerOk-same :
        (x : Producer T) (free_end free_end' : ℕ)
        → r.enqueue_pos ≤ r'.enqueue_pos
        → free_end ≤ free_end'
        → ((q : ℕ)
            → Owns x q
            → r.dequeue_pos ≤ q
            → q < r.enqueue_pos
            → r.seq (q % r.cap) ≡ q
            → (r'.dequeue_pos ≤ q) × SameCell r claimed r' claimed' q)
        → ProducerOk r claimed free_end x
        → ProducerOk r' claimed' free_end' x
    ProducerOk-same Producer.ready f f' a b same h = tt
    ProducerOk-same (Producer.at_load v) f f' a b same h = tt
    ProducerOk-same (Producer.at_read p v) f f' a b same h = omega arith
    ProducerOk-same (Producer.at_cas p v) f f' a b same h = omega arith
    ProducerOk-same (Producer.at_construct p v) f f' a b same h =
        let k = same p refl h.0 h.1 h.2 in (k.0, omega arith, k.1.0 ∙ h.2, k.1.2 ∙ h.3)
    ProducerOk-same (Producer.at_publish p v) f f' a b same h =
        let k = same p refl h.0.0 h.0.1 h.0.2 in
        ((k.0, omega arith, k.1.0 ∙ h.0.2, k.1.2 ∙ h.0.3), k.1.1 ∙ h.1)
    ProducerOk-same (Producer.returned o) f f' a b same h = tt

    pub ConsumerOk-same :
        (c : Consumer T)
        → r'.dequeue_pos ≡ r.dequeue_pos
        → r.enqueue_pos ≤ r'.enqueue_pos
        → ((q : ℕ)
            → released_by r.dequeue_pos c ≤ q
            → q < r.enqueue_pos
            → r.seq (q % r.cap) ≡ suc q
            → SameCell r claimed r' claimed' q)
        → ConsumerOk r claimed c
        → ConsumerOk r' claimed' c
    ConsumerOk-same Consumer.ready d a same h = tt
    ConsumerOk-same Consumer.at_load d a same h = tt
    ConsumerOk-same (Consumer.at_read p) d a same h = h ∙ sym d
    ConsumerOk-same (Consumer.at_cas p) d a same h =
        let k = same p (omega arith) h.1 h.2 in (h.0 ∙ sym d, omega arith, k.0 ∙ h.2)
    ConsumerOk-same (Consumer.at_move p) d a same h =
        let k = same p (omega arith) h.0.1 h.0.2 in
        ((d ∙ h.0.0, omega arith, k.0 ∙ h.0.2), k.1 ∙ h.1 ∙ sym k.2)
    ConsumerOk-same (Consumer.at_release p x) d a same h =
        let k = same p (omega arith) h.0.1 h.0.2 in
        ((d ∙ h.0.0, omega arith, k.0 ∙ h.0.2), k.2 ∙ h.1)
    ConsumerOk-same (Consumer.returned o) d a same h = tt
    ConsumerOk-same Consumer.fault d a same h = h
