-- ===== src/Announce/Query/Split.antt =====
-- The loop over the equal signs in src/announce.rs reads what splitting at the ampersands gives.
use unit3d_announce.Announce.Query.Positions.{
  Without, positions_none, positions_hit, positions_skip, slice-middle,
}
use mathlib.Core.Path.{fun_ext}
use mathlib.Core.List.{append_assoc, append-nil}
use unit3d_announce.Prelude.{
  ℕ, ◌+◌, ◌≡◌, ◌≢◌, refl, sym, ap, ◌∙◌, true, false, some, List, [], ◌∷◌, ◌++◌, length,
  length-append, arith, ◌==◌,
}
use unit3d_announce.Error.Result.{Result, ok, err, panic, ◌>>=◌}
use unit3d_announce.Announce.Query.{
  Params, no_params, set_param, positions, slice, value_end, rest_of, read_params, parse_params,
}

-- A query as the specification of URLs sees it: parameters and their values.
abbrev pub Fields : Type 0
Fields = List (List ℕ × List ℕ)

-- `key=value`, with an ampersand between each two.
abbrev pub render : Fields → List ℕ
render [] = []
render ((k, v) ∷ []) = k ++ (b'=' ∷ v)
render ((k, v) ∷ f ∷ fields) = k ++ (b'=' ∷ (v ++ (b'&' ∷ render (f ∷ fields))))

-- A text without equal signs and ampersands.
abbrev pub IsPlain : List ℕ → Type 0
IsPlain s = Without b'=' s × Without b'&' s

abbrev pub ArePlain : Fields → Type 0
ArePlain [] = Unit
ArePlain ((k, v) ∷ fields) = IsPlain k × IsPlain v × ArePlain fields

-- Each field sets its parameter, from the first to the last.
abbrev pub set_params : Fields → Params → Result Params
set_params [] p = ok p
set_params ((k, v) ∷ fields) p = set_param k v p >>= λ next. set_params fields next

bind_ok : (r : Result Params) → (r >>= λ next. ok next) ≡ r
bind_ok (ok p) = refl
bind_ok (err e) = refl
bind_ok panic = refl

module _ (query pre k v post ampersands : List ℕ) (pos : ℕ)
    (at : query ≡ pre ++ (k ++ (b'=' ∷ (v ++ post)))) (here : pos ≡ length pre)
    (end : value_end (length query) ampersands ≡ pos + length k + 1 + length v) where
  key_slice : slice query pos (pos + length k) ≡ some k
  key_slice =
      slice-middle query pre k (b'=' ∷ (v ++ post)) pos (pos + length k) at here
        (ap (λ n. n + length k) here)

  value_slice : slice query (pos + length k + 1) (value_end (length query) ampersands) ≡ some v
  value_slice =
      let shifted : query ≡ (pre ++ (k ++ (b'=' ∷ []))) ++ (v ++ post) = at ∙ simp append_assoc in
      let n : length (pre ++ (k ++ (b'=' ∷ []))) ≡ length pre + (length k + 1) =
        length-append pre (k ++ (b'=' ∷ []))
        ∙ ap (λ m. length pre + m) (length-append k (b'=' ∷ [])) in
      slice-middle query (pre ++ (k ++ (b'=' ∷ []))) v post (pos + length k + 1)
        (value_end (length query) ampersands) shifted (omega (arith, n, here))
        (omega (arith, n, here, end))

  read_params-cons :
      (equal_signs : List ℕ) (p : Params)
      → read_params query ((pos + length k) ∷ equal_signs) ampersands pos p ≡ (
          set_param k v p >>= λ next. elim (value_end (length query) ampersands == length query) [
            | true ↦ ok next
            | false ↦
                read_params query equal_signs
                  (rest_of ampersands)
                  (value_end (length query) ampersands + 1)
                  next
          ])
  unfolding read_params
  read_params-cons equal_signs p = rw (key_slice, value_slice) refl

  read_last :
      (equal_signs : List ℕ) (p : Params)
      → value_end (length query) ampersands ≡ length query
      → read_params query ((pos + length k) ∷ equal_signs) ampersands pos p ≡ set_param k v p
  read_last equal_signs p h =
      let t : (value_end (length query) ampersands == length query) ≡ true = ground arith in
      read_params-cons equal_signs p ∙ ground arith

  read_next :
      (equal_signs : List ℕ) (p : Params)
      → value_end (length query) ampersands ≢ length query
      → read_params query ((pos + length k) ∷ equal_signs) ampersands pos p ≡ (
          set_param k v p >>= λ next.
          read_params query equal_signs
            (rest_of ampersands)
            (value_end (length query) ampersands + 1)
            next)
  read_next equal_signs p h =
      let t : (value_end (length query) ampersands == length query) ≡ false = ground arith in
      read_params-cons equal_signs p ∙ ground arith

-- A query of one field, and one of more.
read_one :
    (query pre : List ℕ) (pos : ℕ) (k v : List ℕ) (p : Params)
    → query ≡ pre ++ (k ++ (b'=' ∷ v))
    → pos ≡ length pre
    → IsPlain k
    → IsPlain v
    → read_params query
        (positions b'=' (k ++ (b'=' ∷ v)) pos)
        (positions b'&' (k ++ (b'=' ∷ v)) pos)
        pos
        p
      ≡ set_param k v p
unfolding value_end
read_one query pre pos k v p at here pk pv =
    let ampersands : positions b'&' (k ++ (b'=' ∷ v)) pos ≡ [] =
      positions_skip b'&' b'=' k v pos pk.1 (omega arith) ∙ positions_none b'&' v _ pv.1 in
    let n : length query ≡ pos + length k + 1 + length v = omega (
      arith,
      ap length at,
      length-append pre (k ++ (b'=' ∷ v)),
      length-append k (b'=' ∷ v),
      here,
    ) in
    rw (positions_hit b'=' k v pos pk.0, ampersands)
      (read_last query pre k v [] [] pos (at ∙ rw append-nil refl) here n
        (positions b'=' v (pos + length k + 1)) p refl)

read_more :
    (query pre : List ℕ) (pos : ℕ) (k v others : List ℕ) (p : Params)
    → query ≡ pre ++ (k ++ (b'=' ∷ (v ++ (b'&' ∷ others))))
    → pos ≡ length pre
    → IsPlain k
    → IsPlain v
    → read_params query
        (positions b'=' (k ++ (b'=' ∷ (v ++ (b'&' ∷ others)))) pos)
        (positions b'&' (k ++ (b'=' ∷ (v ++ (b'&' ∷ others)))) pos)
        pos
        p
      ≡ (set_param k v p >>= λ next.
          read_params query
            (positions b'=' others (pos + length k + 1 + length v + 1))
            (positions b'&' others (pos + length k + 1 + length v + 1))
            (pos + length k + 1 + length v + 1)
            next)
unfolding value_end rest_of
read_more query pre pos k v others p at here pk pv =
    let signs = positions_hit b'=' k (v ++ (b'&' ∷ others)) pos pk.0 in
    let signs' = positions_skip b'=' b'&' v others (pos + length k + 1) pv.0 (omega arith) in
    let ampersands = positions_skip b'&' b'=' k (v ++ (b'&' ∷ others)) pos pk.1 (omega arith) in
    let ampersands' = positions_hit b'&' v others (pos + length k + 1) pv.1 in
    let n = length-append pre (k ++ (b'=' ∷ (v ++ (b'&' ∷ others)))) in
    let n' = length-append k (b'=' ∷ (v ++ (b'&' ∷ others))) in
    let n'' = length-append v (b'&' ∷ others) in
    let later : pos + length k + 1 + length v ≢ length query =
      omega (arith, ap length at, n, n', n'', here) in
    rw (signs, signs', ampersands, ampersands')
      (read_next query pre k v (b'&' ∷ others)
        ((pos + length k + 1 + length v)
          ∷ positions b'&' others (pos + length k + 1 + length v + 1))
        pos at here refl (positions b'=' others (pos + length k + 1 + length v + 1)) p later)

-- The loop from a field on, whatever it has read before.
read_fields :
    (query pre : List ℕ) (pos : ℕ) (k v : List ℕ) (fields : Fields) (p : Params)
    → query ≡ pre ++ render ((k, v) ∷ fields)
    → pos ≡ length pre
    → ArePlain ((k, v) ∷ fields)
    → read_params query
        (positions b'=' (render ((k, v) ∷ fields)) pos)
        (positions b'&' (render ((k, v) ∷ fields)) pos)
        pos
        p
      ≡ set_params ((k, v) ∷ fields) p
read_fields query pre pos k v [] p at here (pk, pv, _) =
    read_one query pre pos k v p at here pk pv ∙ sym (bind_ok (set_param k v p))
read_fields query pre pos k v ((k', v') ∷ fields) p at here (pk, pv, rest) =
    let read = pre ++ (k ++ (b'=' ∷ (v ++ (b'&' ∷ [])))) in
    let n = length-append pre (k ++ (b'=' ∷ (v ++ (b'&' ∷ [])))) in
    let n' = length-append k (b'=' ∷ (v ++ (b'&' ∷ []))) in
    let n'' = length-append v (b'&' ∷ []) in
    let at' : query ≡ read ++ render ((k', v') ∷ fields) = at ∙ simp append_assoc in
    let here' : pos + length k + 1 + length v + 1 ≡ length read = omega (arith, n, n', n'', here) in
    read_more query pre pos k v (render ((k', v') ∷ fields)) p at here pk pv
    ∙ ap (λ g. set_param k v p >>= g)
        (fun_ext (λ next.
          read_fields query read (pos + length k + 1 + length v + 1) k' v' fields next at' here'
            rest))

-- Where neither the names nor the values of a query's fields hold an equal sign or an ampersand, the
-- loop over the equal signs, with its iterator over the ampersands, sets the parameters of the
-- fields one after the other, and stops at the first error.
pub parse_params-render :
    (fields : Fields) → ArePlain fields → parse_params (render fields) ≡ set_params fields no_params
unfolding parse_params positions read_params
parse_params-render [] plain = refl
parse_params-render ((k, v) ∷ fields) plain =
    read_fields (render ((k, v) ∷ fields)) [] 0 k v fields no_params refl refl plain
