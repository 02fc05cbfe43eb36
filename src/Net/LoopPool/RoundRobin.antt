-- ===== src/Net/LoopPool/RoundRobin.antt =====
-- The loops are taken in turn (LALI/net/EventLoopThreadPool.cpp, `getNextLoop`).
use lali_rpc_frame.Base.{
  length, length-append, get_or, ℕ, suc, ◌≡◌, refl, ap, ◌∙◌, subst, List, [], ◌∷◌, ◌++◌,
  append_assoc, arith,
}
use lali_rpc_frame.Net.LoopPool.{LoopPool, advance, get_next_loop, choose}

module _ {L : Type 0} where
  get_or-append : (pre post : List L) (x d : L) → get_or (pre ++ x ∷ post) (length pre) d ≡ x
  get_or-append [] post x d = refl
  get_or-append (l ∷ pre) post x d = get_or-append pre post x d

  abbrev pub at : L → List L → ℕ → LoopPool L
  at base loops next = record { base_loop = base; loops = loops; next = next }

  next-advance :
      (base x : L) (pre post : List L)
      → get_next_loop (at base (pre ++ x ∷ post) (length pre))
        ≡ (x, advance (at base (pre ++ x ∷ post) (length pre)))
  unfolding get_next_loop
  next-advance base x [] post = refl
  next-advance base x (l ∷ pre) post =
      ap (λ y. (y, advance (at base ((l ∷ pre) ++ x ∷ post) (length (l ∷ pre)))))
        (get_or-append pre post x base)

  advance-last :
      (base x : L) (pre : List L)
      → advance (at base (pre ++ x ∷ []) (length pre)) ≡ at base (pre ++ x ∷ []) 0
  unfolding advance
  advance-last base x pre =
      ap (λ n. at base (pre ++ x ∷ []) n) (ground (arith, length-append pre (x ∷ [])))

  advance-inner :
      (base x y : L) (pre post : List L)
      → advance (at base (pre ++ x ∷ y ∷ post) (length pre))
        ≡ at base (pre ++ x ∷ y ∷ post) (suc (length pre))
  unfolding advance
  advance-inner base x y pre post =
      ap (λ n. at base (pre ++ x ∷ y ∷ post) n) (ground (arith, length-append pre (x ∷ y ∷ post)))

  shift : (pre post : List L) (x : L) → (pre ++ x ∷ []) ++ post ≡ pre ++ x ∷ post
  shift pre post x = append_assoc pre (x ∷ []) post

  length-shift : (pre : List L) (x : L) → length (pre ++ x ∷ []) ≡ suc (length pre)
  length-shift pre x = omega (arith, length-append pre (x ∷ []))

  choose-step :
      (k : ℕ) (p p' q : LoopPool L) (x : L) (rest : List L)
      → get_next_loop p ≡ (x, p')
      → choose k p' ≡ (rest, q)
      → choose (suc k) p ≡ (x ∷ rest, q)
  unfolding choose
  choose-step k p p' q x rest e h = rw e (λ i. (x ∷ (h i).0, (h i).1))

  -- From any position to the end of the list.
  choose-rest :
      (base x : L) (pre post : List L)
      → choose (suc (length post)) (at base (pre ++ x ∷ post) (length pre))
        ≡ (x ∷ post, at base (pre ++ x ∷ post) 0)
  choose-rest base x pre [] =
      let start = at base (pre ++ x ∷ []) 0 in
      choose-step 0 (at base (pre ++ x ∷ []) (length pre)) start start x []
        (next-advance base x pre [] ∙ ap (λ p. (x, p)) (advance-last base x pre))
        (unfold choose in refl)
  choose-rest base x pre (y ∷ post) =
      let loops = pre ++ x ∷ y ∷ post in
      let later = choose-rest base y (pre ++ x ∷ []) post in
      let counted =
        subst
          (λ n.
            choose (suc (length post)) (at base ((pre ++ x ∷ []) ++ y ∷ post) n)
            ≡ (y ∷ post, at base ((pre ++ x ∷ []) ++ y ∷ post) 0))
          (length-shift pre x) later in
      choose-step (suc (length post)) (at base loops (length pre))
        (at base loops (suc (length pre))) (at base loops 0) x (y ∷ post)
        (next-advance base x pre (y ∷ post) ∙ ap (λ p. (x, p)) (advance-inner base x y pre post))
        (subst
          (λ l. choose (suc (length post)) (at base l (suc (length pre))) ≡ (y ∷ post, at base l 0))
          (shift pre (y ∷ post) x) counted)

  -- As many connections as there are loops, from the first loop on, take each loop once, in order, and
  -- then it is the first loop's turn again.
  pub choose-loops :
      (base x : L) (loops : List L)
      → choose (length (x ∷ loops)) (at base (x ∷ loops) 0) ≡ (x ∷ loops, at base (x ∷ loops) 0)
  choose-loops base x loops = choose-rest base x [] loops
