-- ===== src/Splitter/Chunks.antt =====
-- OtlpPayloadSplitter.hpp: the chunks hold the batch.
use log_it_cpp.Base.{
  ℕ, ◌≡◌, ◌≤◌, ◌<◌, ◌⊎◌, inl, inr, refl, sym, ap, subst, ◌∙◌, List, [], ◌∷◌, ◌++◌, map,
  append_assoc, append-nil, leb, leb→le, ==_iff, ◌==◌, if◌then◌else◌, if_elim, length, arith, All,
  All-append,
}
use log_it_cpp.Record.{Bytes}
use log_it_cpp.Splitter.{is_empty, split_one, split_loop, close, build_chunks}

-- The batches one after another.
abbrev pub concat {ℓ} : {A : Type ℓ} → List (List A) → List A
concat [] = []
concat (xs ∷ xss) = xs ++ concat xss

concat-append {ℓ} :
    {A : Type ℓ} (xss : List (List A)) (xs : List A) → concat (xss ++ xs ∷ []) ≡ concat xss ++ xs
concat-append [] xs = append-nil xs
concat-append (ys ∷ xss) xs =
    ap (◌++◌ ys) (concat-append xss xs) ∙ sym (append_assoc ys (concat xss) xs)

map-append_one {ℓ κ} :
    {A : Type ℓ} {B : Type κ} (f : A → B) (xs : List A) (x : A)
    → map f (xs ++ x ∷ []) ≡ map f xs ++ f x ∷ []
map-append_one f [] x = refl
map-append_one f (y ∷ xs) x = ap (◌∷◌ (f y)) (map-append_one f xs x)

module _ {Item : Type 0} (build : List Item → Bytes) (max_payload_bytes : ℕ) where
  -- A chunk's items: never none, and the chunk keeps to the limit or holds a single item.
  abbrev pub Fits : List Item → Type 0
  Fits items =
      (0 < length items) × ((length (build items) ≤ max_payload_bytes) ⊎ (length items ≡ 1))

  abbrev pub Partition : List Item → List Bytes → Type 0
  Partition batch chunks =
      (parts : List (List Item)) × (concat parts ≡ batch)
      × (chunks ≡ map build parts)
      × All Fits parts

  -- What holds in the loop: the closed chunks and the open one hold the items so far.
  abbrev pub Open : List Item × List Bytes → List Item → Type 0
  Open s seen =
      (parts : List (List Item)) × (concat parts ++ s.0 ≡ seen)
      × (s.1 ≡ map build parts)
      × All Fits parts
      × ((s.0 ≡ []) ⊎ Fits s.0)

  closes :
      (parts : List (List Item)) (items : List Item)
      → All Fits parts
      → Fits items
      → All Fits (parts ++ items ∷ [])
  closes parts items h k = All-append Fits parts (items ∷ []) h (k, tt)

  one_more : (xs : List Item) (x : Item) → 0 < length (xs ++ x ∷ [])
  one_more [] x = omega arith
  one_more (y ∷ xs) x = omega arith

  grows :
      (s : List Item × List Bytes) (item : Item) (seen : List Item)
      → Open s seen
      → length (build (s.0 ++ item ∷ [])) ≤ max_payload_bytes
      → Open (s.0 ++ item ∷ [], s.1) (seen ++ item ∷ [])
  grows s item seen (parts, p, c, fit, o) h = (
    parts,
    sym (append_assoc (concat parts) s.0 (item ∷ [])) ∙ ap (λ x. x ++ item ∷ []) p,
    c,
    fit,
    inr (one_more s.0 item, inl h),
  )

  starts :
      (open_now : List Item) (chunks : List Bytes) (item : Item) (seen : List Item)
      → Open (open_now, chunks) seen
      → Open
          (if is_empty open_now
            then (open_now, chunks ++ build (open_now ++ item ∷ []) ∷ [])
            else (item ∷ [], chunks ++ build open_now ∷ []))
          (seen ++ item ∷ [])
  starts [] chunks item seen (parts, p, c, fit, o) = (
    parts ++ (item ∷ []) ∷ [],
    append-nil _
        ∙ concat-append parts (item ∷ [])
        ∙ ap (λ x. x ++ item ∷ []) (sym (append-nil (concat parts)) ∙ p),
    ap (λ x. x ++ build (item ∷ []) ∷ []) c ∙ sym (map-append_one build parts (item ∷ [])),
    closes parts (item ∷ []) fit (omega arith, inr refl),
    inl refl,
  )
  starts (x ∷ xs) chunks item seen (parts, p, c, fit, inl e) = cc
  starts (x ∷ xs) chunks item seen (parts, p, c, fit, inr f) = (
    parts ++ (x ∷ xs) ∷ [],
    ap (λ y. y ++ item ∷ []) (concat-append parts (x ∷ xs) ∙ p),
    ap (λ y. y ++ build (x ∷ xs) ∷ []) c ∙ sym (map-append_one build parts (x ∷ xs)),
    closes parts (x ∷ xs) fit f,
    inr (omega arith, inr refl),
  )

  split_one-Open :
      (s : List Item × List Bytes) (item : Item) (seen : List Item)
      → Open s seen
      → Open (split_one build max_payload_bytes s item) (seen ++ item ∷ [])
  unfolding split_one
  split_one-Open s item seen o =
      if_elim (λ u. Open u (seen ++ item ∷ []))
        (leb (length (build (s.0 ++ item ∷ []))) max_payload_bytes) (s.0 ++ item ∷ [], s.1) _
        (λ h. grows s item seen o (leb→le _ _ h)) (λ h. starts s.0 s.1 item seen o)

  split_loop-Open :
      (s : List Item × List Bytes) (batch seen : List Item)
      → Open s seen
      → Open (split_loop build max_payload_bytes s batch) (seen ++ batch)
  unfolding split_loop
  split_loop-Open s [] seen o = subst (Open s) (sym (append-nil seen)) o
  split_loop-Open s (item ∷ batch) seen o =
      subst
        (Open (split_loop build max_payload_bytes (split_one build max_payload_bytes s item) batch))
        (append_assoc seen (item ∷ []) batch)
        (split_loop-Open (split_one build max_payload_bytes s item) batch (seen ++ item ∷ [])
          (split_one-Open s item seen o))

  close-Partition :
      (open_now : List Item) (chunks : List Bytes) (batch : List Item)
      → Open (open_now, chunks) batch
      → Partition batch (close build max_payload_bytes (open_now, chunks))
  unfolding close
  close-Partition [] chunks batch (parts, p, c, fit, o) =
      (parts, sym (append-nil (concat parts)) ∙ p, c, fit)
  close-Partition (x ∷ xs) chunks batch (parts, p, c, fit, inl e) = cc
  close-Partition (x ∷ xs) chunks batch (parts, p, c, fit, inr f) = (
    parts ++ (x ∷ xs) ∷ [],
    concat-append parts (x ∷ xs) ∙ p,
    ap (λ y. y ++ build (x ∷ xs) ∷ []) c ∙ sym (map-append_one build parts (x ∷ xs)),
    closes parts (x ∷ xs) fit f,
  )

  any_batch :
      (batch : List Item)
      → Partition batch (
          if is_empty batch
          then []
          else close build max_payload_bytes (split_loop build max_payload_bytes ([], []) batch))
  any_batch [] = ([], refl, refl, tt)
  any_batch (x ∷ xs) =
      let s = split_loop build max_payload_bytes ([], []) (x ∷ xs) in
      close-Partition s.0 s.1 (x ∷ xs)
        (split_loop-Open ([], []) (x ∷ xs) [] ([], refl, refl, tt, inl refl))

  -- With a limit, the chunks are the payloads of consecutive parts of the batch: no item is lost,
  -- repeated or moved, no part is empty, and a chunk over the limit holds a single item.
  pub build_chunks-Partition :
      (batch : List Item)
      → 0 < max_payload_bytes
      → Partition batch (build_chunks build max_payload_bytes batch)
  unfolding build_chunks
  build_chunks-Partition batch h =
      if_elim (Partition batch) (max_payload_bytes == 0) (build batch ∷ []) _
        (λ e. absurd (omega (arith, (==_iff max_payload_bytes 0).0 e))) (λ e. any_batch batch)
