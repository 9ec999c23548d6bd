-- ===== src/Links/Ring.antt =====
-- A list in memory as a ring, and the ring after an insertion or an erasure.
use cs_161_s21_problem_sets.Prelude.{
  ℕ, ◌≡◌, ◌≢◌, refl, sym, ap, ◌∙◌, inl, inr, List, [], ◌∷◌, ◌++◌, subst,
}
use cs_161_s21_problem_sets.Links.State.{Memory, put}
use cs_161_s21_problem_sets.Links.Chain.{
  Mem, Absent, Distinct, Linked, Linked-append, Linked-cut, Linked-frame, Absent-append, Absent-Mem,
  put-other, last_of, Mem-last_of, Distinct-append, Absent-of, next-Mem, Mem-append,
}
use cs_161_s21_problem_sets.Links.Lists.{append_nil, Mem-right}
use cs_161_s21_problem_sets.Links.Ties.{tied, Linked-tied, untied, Linked-untied}

-- The list with its head at `h` holds `xs`.
pub record IsList (m : Memory) (h : ℕ) (xs : List ℕ) : Type 0 where
  pub ring : Linked m h xs h
  pub distinct : Distinct (h ∷ xs)
  pub nonzero : (y : ℕ) → Mem y (h ∷ xs) → y ≢ 0

-- The element at which `bs` begins, or the head.
abbrev pub head_or : ℕ → List ℕ → ℕ
head_or h [] = h
head_or h (b ∷ bs) = b

-- The ring, cut before `bs`.
abbrev pub Cut : Memory → ℕ → List ℕ → List ℕ → Type 0
Cut m h xs [] = Linked m h xs h
Cut m h xs (b ∷ bs) = Linked m h xs b × Linked m b bs h

pub cut : (m : Memory) (h : ℕ) (xs bs : List ℕ) → Linked m h (xs ++ bs) h → Cut m h xs bs
cut m h xs [] r = subst (λ l. Linked m h l h) (append_nil xs) r
cut m h xs (b ∷ bs) r = Linked-cut m h xs b bs h r

pub glue : (m : Memory) (h : ℕ) (xs bs : List ℕ) → Cut m h xs bs → Linked m h (xs ++ bs) h
glue m h xs [] r = subst (λ l. Linked m h l h) (sym (append_nil xs)) r
glue m h xs (b ∷ bs) (l, r) = Linked-append m h xs b bs h l r

pub Cut-first : (m : Memory) (h : ℕ) (xs bs : List ℕ) → Cut m h xs bs → Linked m h xs (head_or h bs)
Cut-first m h xs [] r = r
Cut-first m h xs (b ∷ bs) (l, r) = l

-- The elements of the list are linked, so that what is not linked is not in it.
pub next-nonzero :
    (m : Memory) (h : ℕ) (xs : List ℕ) (y : ℕ) → IsList m h xs → Mem y (h ∷ xs) → m.next y ≢ 0
next-nonzero m h xs y l i z = elim (Mem-append (m.next y) xs h (next-Mem m h xs h y l.ring i)) [
  | inl j ↦ l.nonzero (m.next y) (inr j) z
  | inr f ↦ l.nonzero h (inl refl) (sym f ∙ z)
]

pub unlinked-Absent :
    (m : Memory) (h : ℕ) (xs : List ℕ) (x : ℕ) → IsList m h xs → m.next x ≡ 0 → Absent x (h ∷ xs)
unlinked-Absent m h xs x l z =
    Absent-of x (h ∷ xs) (λ y i e. next-nonzero m h xs y l i (sym (ap m.next e) ∙ z))

pub next-head_or : (m : Memory) (h x : ℕ) (bs : List ℕ) → Linked m x bs h → m.next x ≡ head_or h bs
next-head_or m h x [] (n, p) = n
next-head_or m h x (b ∷ bs) (n, p, r) = n

pub Mem-head_or : (h : ℕ) (us bs : List ℕ) → Mem (head_or h bs) (h ∷ (us ++ bs))
Mem-head_or h us [] = inl refl
Mem-head_or h us (b ∷ bs) = inr (Mem-right b us (b ∷ bs) (inl refl))

head_or-Absent : (h : ℕ) (us bs : List ℕ) → Distinct (h ∷ (us ++ bs)) → Absent (head_or h bs) us
head_or-Absent h us [] (a, d) = (Absent-append h us [] a).0
head_or-Absent h us (b ∷ bs) (a, d) =
    let (da, db, apart) = Distinct-append us (b ∷ bs) d in
    Absent-of b us (λ y i e. apart y b i (inl refl) (sym e))

module _ (h : ℕ) (us : List ℕ) (b : ℕ) (bs : List ℕ) (d : Distinct (h ∷ (us ++ (b ∷ bs))))
    (y : ℕ) where
  last_apart : Mem y (b ∷ bs) → y ≢ last_of h us
  last_apart i e =
      let (dl, dr, apart) = Distinct-append (h ∷ us) (b ∷ bs) d in
      apart (last_of h us) y (Mem-last_of h us) i (sym e)

  first_apart : Mem y (bs ++ (h ∷ [])) → y ≢ b
  first_apart i e =
      let (dl, (bb, dr), apart) = Distinct-append (h ∷ us) (b ∷ bs) d in
      elim (Mem-append y bs h i) [
        | inl j ↦ Absent-Mem b y bs bb j (sym e)
        | inr f ↦ apart h b (inl refl) (inl refl) (sym f ∙ e)
      ]

  in_ring : Mem y (bs ++ (h ∷ [])) → Mem y (h ∷ (us ++ (b ∷ bs)))
  in_ring i = elim (Mem-append y bs h i) [
    | inl j ↦ inr (Mem-right y us (b ∷ bs) (inr j))
    | inr f ↦ inl f
  ]

-- The rest of the ring is as before.
rest_tied :
    (m : Memory) (h : ℕ) (us : List ℕ) (b x : ℕ) (bs : List ℕ)
    → Distinct (h ∷ (us ++ (b ∷ bs)))
    → Absent x (h ∷ (us ++ (b ∷ bs)))
    → Linked m b bs h
    → Linked (tied x (last_of h us) b m) b bs h
rest_tied m h us b x bs d a r =
    let off = λ (y : ℕ) (i : Mem y (h ∷ (us ++ (b ∷ bs)))) (e : y ≡ x).
      Absent-Mem x y (h ∷ (us ++ (b ∷ bs))) a i (sym e) in
    Linked-frame m (tied x (last_of h us) b m) b bs h
      (λ y i.
        put-other (last_of h us) x (put x b m.next) y (last_apart h us b bs d y i)
        ∙ put-other x b m.next y (off y (inr (Mem-right y us (b ∷ bs) i))))
      (λ y i.
        put-other b x (put x (last_of h us) m.prev) y (first_apart h us b bs d y i)
        ∙ put-other x (last_of h us) m.prev y (off y (in_ring h us b bs d y i)))
      r

rest_untied :
    (m : Memory) (h : ℕ) (us : List ℕ) (b x : ℕ) (bs : List ℕ)
    → Distinct (h ∷ (us ++ (b ∷ bs)))
    → Absent x (h ∷ (us ++ (b ∷ bs)))
    → Linked m b bs h
    → Linked (untied x (last_of h us) b m) b bs h
rest_untied m h us b x bs d a r =
    let off = λ (y : ℕ) (i : Mem y (h ∷ (us ++ (b ∷ bs)))) (e : y ≡ x).
      Absent-Mem x y (h ∷ (us ++ (b ∷ bs))) a i (sym e) in
    Linked-frame m (untied x (last_of h us) b m) b bs h
      (λ y i.
        put-other x 0 (put (last_of h us) b m.next) y (off y (inr (Mem-right y us (b ∷ bs) i)))
        ∙ put-other (last_of h us) b m.next y (last_apart h us b bs d y i))
      (λ y i.
        put-other x 0 (put b (last_of h us) m.prev) y (off y (in_ring h us b bs d y i))
        ∙ put-other b (last_of h us) m.prev y (first_apart h us b bs d y i))
      r

-- The edge before `bs`, with what the lemmas on it ask for.
module _ (m : Memory) (h : ℕ) (us bs : List ℕ) (x : ℕ) (d : Distinct (h ∷ (us ++ bs)))
    (a : Absent x (h ∷ (us ++ bs))) where
  pub other_end : head_or h bs ≢ x
  other_end e = Absent-Mem x (head_or h bs) (h ∷ (us ++ bs)) a (Mem-head_or h us bs) (sym e)

  edge_tied :
      Linked m h us (head_or h bs)
      → Linked (tied x (last_of h us) (head_or h bs) m) h (us ++ (x ∷ [])) (head_or h bs)
  edge_tied l =
      Linked-tied m h us (head_or h bs) x l (Distinct-append (h ∷ us) bs d).0
        (head_or-Absent h us bs d) (Absent-append x (h ∷ us) bs a).0 other_end

  edge_untied :
      Linked m h us x → Linked (untied x (last_of h us) (head_or h bs) m) h us (head_or h bs)
  edge_untied l =
      Linked-untied m h us (head_or h bs) x l (Distinct-append (h ∷ us) bs d).0
        (head_or-Absent h us bs d) (Absent-append x (h ∷ us) bs a).0 other_end

-- The ring after an insertion, and after an erasure.
pub ring_tied :
    (m : Memory) (h : ℕ) (us bs : List ℕ) (x : ℕ)
    → Distinct (h ∷ (us ++ bs))
    → Absent x (h ∷ (us ++ bs))
    → Cut m h us bs
    → Linked (tied x (last_of h us) (head_or h bs) m) h (us ++ (x ∷ bs)) h
ring_tied m h us [] x d a r = edge_tied m h us [] x d a r
ring_tied m h us (b ∷ bs) x d a (l, r) =
    let t = tied x (last_of h us) b m in
    let (left, (n, p)) = Linked-cut t h us x [] b (edge_tied m h us (b ∷ bs) x d a l) in
    Linked-append t h us x (b ∷ bs) h left (n, p, rest_tied m h us b x bs d a r)

pub ring_untied :
    (m : Memory) (h : ℕ) (us bs : List ℕ) (x : ℕ)
    → Distinct (h ∷ (us ++ bs))
    → Absent x (h ∷ (us ++ bs))
    → Linked m h us x
    → Linked m x bs h
    → Cut (untied x (last_of h us) (head_or h bs) m) h us bs
ring_untied m h us [] x d a l r = edge_untied m h us [] x d a l
ring_untied m h us (b ∷ bs) x d a l (n, p, r) =
    (edge_untied m h us (b ∷ bs) x d a l, rest_untied m h us b x bs d a r)
