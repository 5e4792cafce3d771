-- ===== src/Process/Logs/Pages.antt =====
-- The pages of a query, and the offset at which a page starts.
use goal_starter.Prelude.{
  ℕ, zero, suc, ◌+◌, ◌-◌, ◌*◌, ◌%◌, ◌^◌, ◌≤◌, ◌<◌, ◌≡◌, refl, ap, sym, ◌∙◌, true, false, Bool-cases,
  inl, inr, List, [], ◌++◌, arith, ℤ, pos, negsuc, length, length-drop, take, drop, take-all,
  take-add, take-nil, drop-all, ltb, leb, if◌then◌else◌,
}
use goal_starter.Process.Logs.{Paged, page, panics, page_of, page_size_of, paginate}

-- The offset of a page in whole numbers.
abbrev pub offset : ℤ → ℤ → ℕ
offset wanted size = (page_of wanted - 1) * page_size_of size

pub page_size_bounds : (size : ℤ) → (1 ≤ page_size_of size) × (page_size_of size ≤ 500)
page_size_bounds (negsuc n) = omega arith
page_size_bounds (pos zero) = omega arith
page_size_bounds (pos (suc n)) = ground arith

word_small : (k : ℕ) → k < 2 ^ 63 → k % 2 ^ 64 ≡ k
word_small k h = omega arith

module _ {A : Type 0} where
  cut_short :
      (start size : ℕ) (l : List A)
      → start ≤ length l
      → take
          ((if ltb (length l) (start + size) then length l else start + size) - start)
          (drop start l)
        ≡ take size (drop start l)
  cut_short start size l h = elim (Bool-cases (ltb (length l) (start + size))) [
    | inl e ↦
        let full : length (drop start l) ≤ length l - start = omega (arith, length-drop start l) in
        let fits : length (drop start l) ≤ size = ground (arith, length-drop start l) in
        rw e (
          take-all (length l - start) (drop start l) full ∙ sym (take-all size (drop start l) fits))
    | inr e ↦
        let d : (start + size) - start ≡ size = omega arith in
        rw e (ap (λ (n : ℕ). take n (drop start l)) d)
  ]

  -- A page whose offset is below 2^63: the right part of the list, and no more than the page size,
  -- which is between 1 and 500.
  paginate-page :
      (wanted size : ℤ) (l : List A)
      → offset wanted size < 2 ^ 63
      → (paginate wanted size l
          ≡ page
              (length l)
              (page_of wanted)
              (page_size_of size)
              (take (page_size_of size) (drop (offset wanted size) l)))
        × (1 ≤ page_size_of size)
        × (page_size_of size ≤ 500)
  unfolding paginate
  paginate-page wanted size l h =
      let start = offset wanted size in
      let small : leb (2 ^ 63) start ≡ false = ground arith in
      let bounds = page_size_bounds size in
      (
        elim (Bool-cases (leb (length l) start)) [
          | inl past ↦
              let none_left : length l ≤ start = ground arith in
              rw
                (
                  word_small start h,
                  small,
                  past,
                  drop-all start l none_left,
                  take-nil (page_size_of size),
                )
                refl
          | inr some_left ↦
              let inside : start ≤ length l = ground arith in
              rw (word_small start h, small, some_left)
                (ap (page (length l) (page_of wanted) (page_size_of size))
                  (cut_short start (page_size_of size) l inside))
        ],
        bounds.0,
        bounds.1,
      )

  -- From 2^63 up to 2^64 the offset is negative in 64 bits, and the page panics.
  pub paginate-panics :
      (wanted size : ℤ) (l : List A)
      → 2 ^ 63 ≤ offset wanted size
      → offset wanted size < 2 ^ 64
      → paginate wanted size l ≡ panics
  unfolding paginate
  paginate-panics wanted size l low high =
      let same : offset wanted size % 2 ^ 64 ≡ offset wanted size = omega arith in
      let large : leb (2 ^ 63) (offset wanted size) ≡ true = ground arith in rw (same, large) refl

-- The items of a page.
items_of : {A : Type 0} → Paged A → List A
items_of (page total number size items) = items
items_of panics = []

-- The items of the pages 1 to n, in order.
pub gather : {A : Type 0} → ℕ → ℤ → List A → List A
gather zero size l = []
gather (suc n) size l = gather n size l ++ items_of (paginate (pos (suc n)) size l)

suc-less : (n : ℕ) → suc n - 1 ≡ n
suc-less n = omega arith

suc-times : (n s : ℕ) → suc n * s ≡ n * s + s
suc-times n s = ground arith

module _ {A : Type 0} where
  gather-take :
      (n : ℕ) (size : ℤ) (l : List A)
      → n * page_size_of size < 2 ^ 63
      → gather n size l ≡ take (n * page_size_of size) l
  unfolding gather items_of take
  gather-take zero size l h = let e : 0 * page_size_of size ≡ 0 = omega arith in rw e refl
  gather-take (suc n) size l h =
      let s = page_size_of size in
      let here : offset (pos (suc n)) size ≡ n * s = ap (λ (k : ℕ). k * s) (suc-less n) in
      let more : suc n * s ≡ n * s + s = suc-times n s in
      let below : n * s < 2 ^ 63 = omega (arith, more, h) in
      let (one, positive, capped) = paginate-page (pos (suc n)) size l (rw here below) in
      let now : items_of (paginate (pos (suc n)) size l) ≡ take s (drop (n * s) l) =
        ap items_of one ∙ ap (λ (k : ℕ). take s (drop k l)) here in
      rw (more, now, gather-take n size l below) (sym (take-add (n * s) s l))

  -- The pages of a query together hold all that passed the filters, each item once and in order: when
  -- n pages are enough for the items, pages 1 to n put together are the list, for n times the page
  -- size below 2^63.
  pub pages-cover :
      (n : ℕ) (size : ℤ) (l : List A)
      → length l ≤ n * page_size_of size
      → n * page_size_of size < 2 ^ 63
      → gather n size l ≡ l
  pages-cover n size l enough small =
      gather-take n size l small ∙ take-all (n * page_size_of size) l enough
