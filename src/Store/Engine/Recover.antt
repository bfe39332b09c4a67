-- ===== src/Store/Engine/Recover.antt =====
-- The default recovery loop, over chunks of an engine that holds a list of frames, visits every
-- frame once, in order.
use pardosa.Prelude.Bytes.{Bytes}
use pardosa.Prelude.Words.{u64_max, saturating_add}
use pardosa.Prelude.{
  ℕ, ◌+◌, ◌-◌, ◌≤◌, ◌<◌, ◌≡◌, refl, ◌⊎◌, List, [], ◌∷◌, ◌++◌, leb-eq-true, leb-eq-false, length,
  take, drop, zero, suc, inl, inr, some, arith, ltb, leb, Bool-cases, true, Option, ap, ◌∙◌,
  ltb-false→le, sym, ltb→lt, take-append-drop, length-take, length-drop, drop_all, drop-drop, false,
  ◌==◌,
}
use Prim.Native.Nat.{min, max}
use pardosa.Failure.{Result, OperationFailure, ok, err}
use pardosa.Store.Engine.{
  Callback, Visit, visit, chunk_of, recover_loop, default_recover_frames, default_read_chunk,
  then_visit, after_visit, after_chunk, chunk_result,
}

-- A visit that goes on with more frames where it came to the end.
abbrev pub and_visit : {S : Type 0} → Callback S → Visit S → List Bytes → Visit S
and_visit on_frame (ok n, st) ys = visit on_frame n ys st
and_visit on_frame (err e, st) ys = (err e, st)

pub visit-append :
    {S : Type 0} (on_frame : Callback S) (total : ℕ) (xs ys : List Bytes) (st : S)
    → visit on_frame total (xs ++ ys) st ≡ and_visit on_frame (visit on_frame total xs st) ys
unfolding visit
visit-append on_frame total [] ys st = refl
visit-append {S} on_frame total (x ∷ xs) ys st =
    go (on_frame total x st) (λ st'. visit-append on_frame (saturating_add total 1) xs ys st')
  where
    go :
        (r : Result OperationFailure (Unit {0}) × S)
        → ((st' : S)
            → visit on_frame (saturating_add total 1) (xs ++ ys) st'
              ≡ and_visit on_frame (visit on_frame (saturating_add total 1) xs st') ys)
        → then_visit r (λ st'. visit on_frame (saturating_add total 1) (xs ++ ys) st')
          ≡ and_visit on_frame
              (then_visit r (λ st'. visit on_frame (saturating_add total 1) xs st'))
              ys
    go (ok u, st') rest = rest st'
    go (err e, st') rest = refl

-- What is left of the frames from `start` on.
chunk_of-lt :
    (start size : ℕ) (all : List Bytes)
    → 0 < size
    → length all ≤ u64_max
    → start < length all
    → (k : ℕ) × (chunk_of start size all ≡ take k (drop start all))
      × (0 < k)
      × (start + k ≤ length all)
      × ((k ≡ size) ⊎ (start + k ≡ length all))
unfolding chunk_of saturating_add
chunk_of-lt start size all pos bound lt =
    let k : ℕ = min (saturating_add start size) (length all) - start in
    (
      k,
      rw (leb-eq-false (length all) start lt) refl,
      omega arith,
      omega arith,
      elim (Bool-cases (leb (start + size) (length all))) [
        | inl whole ↦ inl (ground arith)
        | inr last ↦ inr (ground arith)
      ],
    )

chunk_of-end :
    (start size : ℕ) (all : List Bytes) → length all ≤ start → chunk_of start size all ≡ []
unfolding chunk_of
chunk_of-end start size all h = rw (leb-eq-true (length all) start h) refl

-- An engine whose states, where `Holds` is true of them, give these frames.
module _ {S State : Type 0} (on_frame : Callback S)
    (read_chunk : ℕ → ℕ → State → Result OperationFailure (List Bytes) × State) (all : List Bytes)
    (Holds : State → Type 0)
    (chunks : (start size : ℕ) (s : State)
      → 0 < size
      → Holds s
      → (s' : State) × (read_chunk start size s ≡ (ok (chunk_of start size all), s')) × Holds s')
    (bound : length all ≤ u64_max) where
  -- After the visit of a chunk: the rest is visited by the next rounds, or there is none.
  after_visit-lem :
      (again : ℕ → ℕ → S → State → Option (Visit S × State)) (n size start : ℕ) (s : State)
      (v : Visit S) (rest : List Bytes)
      → ((total : ℕ) (st : S)
          → (s' : State) × (again (saturating_add start n) total st s
              ≡ some (visit on_frame total rest st, s'))
            × Holds s')
      → (ltb n size ≡ true → rest ≡ [])
      → Holds s
      → (s' : State) × (after_visit on_frame again n size start s v
          ≡ some (and_visit on_frame v rest, s'))
        × Holds s'
  unfolding visit
  after_visit-lem again n size start s (err e, st) rest next last h = (s, refl, h)
  after_visit-lem again n size start s (ok total, st) rest next last h =
      elim (Bool-cases (ltb n size)) [
        | inl short ↦ (s, rw (short, after_visit) (rw (last short) refl), h)
        | inr full ↦ rw (full, after_visit) (next total st)
      ]

  after_chunk-pos :
      (again : ℕ → ℕ → S → State → Option (Visit S × State)) (size start total : ℕ) (st : S)
      (chunk : List Bytes) (s : State)
      → 0 < length chunk
      → after_chunk on_frame again size start total st (ok chunk, s)
        ≡ after_visit on_frame again (length chunk) size start s (visit on_frame total chunk st)
  after_chunk-pos again size start total st [] s h = absurd (omega arith)
  after_chunk-pos again size start total st (x ∷ xs) s h = refl

  recover_loop-visit :
      (fuel size start total : ℕ) (st : S) (s : State)
      → 0 < size
      → start ≤ length all
      → length all - start < fuel
      → Holds s
      → (s' : State) × (recover_loop on_frame read_chunk fuel size start total st s
          ≡ some (visit on_frame total (drop start all) st, s'))
        × Holds s'
  unfolding recover_loop visit
  recover_loop-visit zero size start total st s pos le enough h = absurd (omega arith)
  recover_loop-visit (suc fuel) size start total st s pos le enough h =
      let again = λ (start' total' : ℕ) (st' : S) (s' : State).
        recover_loop on_frame read_chunk fuel size start' total' st' s' in
      let (s', read, h') = chunks start size s pos h in
      elim (Bool-cases (ltb start (length all))) [
        | inr end ↦
            let none_left = ltb-false→le start (length all) end in
            let chunk = chunk_of-end start size all none_left in
            let rest : drop start all ≡ [] = drop_all start all none_left in
            (
              s',
              rw rest (
                  ap (after_chunk on_frame again size start total st)
                    (read ∙ ap (λ c. (ok c, s')) chunk)),
              h',
            )
        | inl more ↦
            let (k, chunk, some_frame, within, size_or_end) =
              chunk_of-lt start size all pos bound (ltb→lt start (length all) more) in
            let ts = take k (drop start all) in
            let rest = drop k (drop start all) in
            let rest_at : rest ≡ drop (start + k) all = drop-drop start k all in
            let n_eq : length ts ≡ k =
              length-take k (drop start all) (omega (arith, length-drop start all)) in
            let at_next : saturating_add start (length ts) ≡ start + k =
              unfold saturating_add in omega (arith, n_eq) in
            let (s'', visited, h'') =
              after_visit-lem again (length ts) size start s' (visit on_frame total ts st) rest
                (λ total' st'.
                  rw (at_next, rest_at)
                    (recover_loop-visit fuel size (start + k) total' st' s' pos within (omega arith)
                      h'))
                (λ short.
                  rest_at ∙ drop_all (start + k) all (ground (arith, n_eq, short, size_or_end)))
                h' in
            (
              s'',
              ap (after_chunk on_frame again size start total st)
                    (read ∙ ap (λ c. (ok c, s')) chunk)
                  ∙ after_chunk-pos again size start total st ts s' (omega (arith, n_eq))
                  ∙ visited
                  ∙ ap (λ v. some (v, s''))
                      (sym (visit-append on_frame total ts rest st)
                        ∙ ap (λ xs. visit on_frame total xs st)
                            (take-append-drop k (drop start all))),
              h'',
            )
      ]

-- On an engine whose `read_all` gives the same frames again and again, the default `read_chunk` and
-- `recover_frames` visit each frame once, in order and numbered from 0, up to the first error of
-- the callback, whatever the size of a chunk; more rounds than there are frames are enough.
pub default_recover_frames-visit :
    {S State : Type 0} (on_frame : Callback S)
    (read_all : State → Result OperationFailure (List Bytes) × State) (all : List Bytes)
    (Holds : State → Type 0)
    → ((s : State) → Holds s → (s' : State) × (read_all s ≡ (ok all, s')) × Holds s')
    → length all ≤ u64_max
    → (fuel chunk_size : ℕ) (st : S) (s : State) → length all < fuel
    → Holds s
    → (s' : State) × (default_recover_frames on_frame
          (default_read_chunk read_all)
          fuel
          chunk_size
          st
          s
        ≡ some (visit on_frame 0 all st, s'))
      × Holds s'
unfolding default_recover_frames default_read_chunk
default_recover_frames-visit {State = State} on_frame read_all all Holds reads bound fuel chunk_size
      st s enough h =
    recover_loop-visit on_frame (default_read_chunk read_all) all Holds chunks bound fuel
      (max chunk_size 1) 0 0 st s (omega arith) (omega arith) (omega arith) h
  where
    chunks :
        (start size : ℕ) (t : State)
        → 0 < size
        → Holds t
        → (t' : State) × (default_read_chunk read_all start size t
            ≡ (ok (chunk_of start size all), t'))
          × Holds t'
    chunks start size t pos held =
        let (t', read, held') = reads t held in
        let sized : (size == 0) ≡ false = ground arith in
        (t', rw sized (ap (chunk_result read_all start size) read), held')
