-- ===== src/Weaviate/Paging.antt =====
-- internal/repo/weaviate_repo.go, `ListCorrelations`: a client that follows the tokens of the pages.
use native.Mathlib.Nat.{suc-mul, lt-div-mul-add}
use mirador_rca.Prelude.{
  ℕ, zero, suc, ◌+◌, ◌-◌, ◌*◌, ◌/◌, ◌≤◌, ◌<◌, ◌≡◌, ◌≢◌, refl, sym, ap, ◌∙◌, Bool, true, false,
  String, List, ◌++◌, some, length, length-take, take, drop, take_all, take-append-drop,
  length-drop, drop-drop, min, ◌==◌, str_eq, arith, Bool-cases, inl, inr, if◌then◌else◌,
}
use mirador_rca.Prelude.Int.{pos}
use mirador_rca.Prelude.Text.{format_int}
use mirador_rca.Prelude.Outcome.{Reply, reply, failure}
use mirador_rca.Double.{Double}
use mirador_rca.Model.{CorrelationResult, ListCorrelationsRequest, ListCorrelationsResponse}
use mirador_rca.Cache.Resp.{int_limit}
use mirador_rca.Http.{and_then}
use mirador_rca.Weaviate.{Outside, WeaviateRepo}
use mirador_rca.Weaviate.Listing.{page_limit, page_offset, next_token, list_correlations}
use mirador_rca.Weaviate.Pages.{
  page_limit_bounds, with_token, Serves, page_at, list_correlations-Serves,
}
use mirador_rca.Weaviate.Tokens.{format_int-not_empty, page_offset-format_int}

next_token-full :
    (limit offset found : ℕ)
    → (found == limit) ≡ true
    → next_token limit offset found ≡ format_int (pos (offset + found))
unfolding next_token
next_token-full limit offset found h = rw h refl

next_token-short :
    (limit offset found : ℕ) → (found == limit) ≡ false → next_token limit offset found ≡ ""
unfolding next_token
next_token-short limit offset found h = rw h refl

-- What comes before the rest.
and_then-append :
    {W A : Type 0} (first rest : List A) (y : Reply (List A) × W)
    → y.0 ≡ reply rest
    → (and_then y λ more w. (reply (first ++ more), w)).0 ≡ reply (first ++ rest)
and_then-append first rest (failure e, w) h = absurd (ground arith)
and_then-append first rest (reply more, w) h = ap reply (ap (λ l. first ++ l) (ground arith))

module _ {W D F : Type 0} ⦃d : Double F⦄ (x : Outside W D F) (r : WeaviateRepo W D)
    (req : ListCorrelationsRequest) where
  -- The rows of a page, and those of the pages after it, where there is a token.
  abbrev pub rest_of :
      (String → W → Reply (List (CorrelationResult F)) × W)
      → ListCorrelationsResponse F
      → W
      → Reply (List (CorrelationResult F)) × W
  rest_of more page w =
      if str_eq page.next_page_token ""
      then (reply page.correlations, w)
      else and_then (more page.next_page_token w) λ rest w'. (reply (page.correlations ++ rest), w')

  -- A client that asks for one page after the other, at most `fuel` of them.
  pub all_pages : ℕ → String → W → Reply (List (CorrelationResult F)) × W
  all_pages zero token w = (failure "too many pages", w)
  all_pages (suc fuel) token w =
      and_then (list_correlations x (some r) (with_token req token) w) (rest_of (all_pages fuel))

  module _ (rows : List (CorrelationResult F)) (s : Serves x r req rows) where
    module _ (small : length rows < int_limit) where
      abbrev limit : ℕ
      limit = page_limit req.page_size

      length-page : (o : ℕ) → length (take limit (drop o rows)) ≡ min limit (length rows - o)
      length-page o = length-take limit (drop o rows) ∙ ap (λ k. min limit k) (length-drop o rows)

      -- The last page is one that is not full.
      rest_of-short :
          (more : String → W → Reply (List (CorrelationResult F)) × W) (token : String) (w : W)
          → (length (take limit (drop (page_offset token) rows)) == limit) ≡ false
          → rest_of more (page_at x r req rows (page_offset token)) w
            ≡ (reply (drop (page_offset token) rows), w)
      rest_of-short more token w short =
          let o = page_offset token in
          rw
            (
              next_token-short limit o (length (take limit (drop o rows))) short,
              take_all limit (drop o rows)
                  (omega (arith, length-page o, length-drop o rows, not_full o short)),
            )
            refl
        where
          not_full :
              (o : ℕ)
              → (length (take limit (drop o rows)) == limit) ≡ false
              → length (take limit (drop o rows)) ≢ limit
          not_full o h = ground arith

      -- After a full page come the rows from its end on.
      rest_of-full :
          (more : String → W → Reply (List (CorrelationResult F)) × W) (token : String) (w : W)
          → let o = page_offset token in
            let found = length (take limit (drop o rows)) in
            (found == limit) ≡ true
            → (more (format_int (pos (o + found))) w).0 ≡ reply (drop (o + limit) rows)
            → (rest_of more (page_at x r req rows (page_offset token)) w).0 ≡ reply (drop o rows)
      rest_of-full more token w full h =
          let o = page_offset token in
          let page = take limit (drop o rows) in
          rw (next_token-full limit o (length page) full, format_int-not_empty (o + length page))
            (and_then-append page (drop (o + limit) rows)
              (more (format_int (pos (o + length page))) w) h)
          ∙ ap (λ l. reply (page ++ l)) (sym (drop-drop o limit rows))
          ∙ ap reply (take-append-drop limit (drop o rows))

      -- The offset of the page after a full one, and how far it is from the end.
      room_of-full :
          (o : ℕ)
          → (length (take limit (drop o rows)) == limit) ≡ true
          → (length (take limit (drop o rows)) ≡ limit) × (o + limit ≤ length rows)
      room_of-full o full =
          let found : length (take limit (drop o rows)) ≡ limit = ground arith in
          (found, omega (arith, found, length-page o, (page_limit_bounds req).0))

      offset-full :
          (o : ℕ)
          → (length (take limit (drop o rows)) == limit) ≡ true
          → page_offset (format_int (pos (o + length (take limit (drop o rows))))) ≡ o + limit
      offset-full o full =
          let (found, room) = room_of-full o full in
          rw found (page_offset-format_int (o + limit) (omega (arith, room, small)))

      step_enough :
          (o fuel : ℕ)
          → length rows < o + suc fuel * limit + limit
          → length rows < o + limit + fuel * limit + limit
      step_enough o fuel h = omega (arith, suc-mul fuel limit)

      abbrev is_full : String → Bool
      is_full token = length (take limit (drop (page_offset token) rows)) == limit

      abbrev following : String → String
      following token =
          format_int (pos (page_offset token + length (take limit (drop (page_offset token) rows))))

      all_pages-step :
          (fuel : ℕ) (token : String) (w : W)
          → page_offset token ≤ length rows
          → (is_full token ≡ true
              → (w' : W)
              → (all_pages fuel (following token) w').0
                ≡ reply (drop (page_offset token + limit) rows))
          → (all_pages (suc fuel) token w).0 ≡ reply (drop (page_offset token) rows)
      unfolding all_pages
      all_pages-step fuel token w inside after =
          ap (λ y. (and_then y (rest_of (all_pages fuel))).0)
            (list_correlations-Serves x r req rows s token w inside)
          ∙ elim (Bool-cases (is_full token)) [
            | inr short ↦ ap (λ y. y.0) (rest_of-short (all_pages fuel) token _ short)
            | inl full ↦ rest_of-full (all_pages fuel) token _ full (after full _)
          ]

      all_pages-from :
          (fuel : ℕ) (token : String) (w : W)
          → page_offset token ≤ length rows
          → length rows < page_offset token + fuel * limit + limit
          → (all_pages (suc fuel) token w).0 ≡ reply (drop (page_offset token) rows)
      all_pages-from zero token w inside enough =
          all_pages-step zero token w inside
            λ full w'. absurd (omega (arith, (room_of-full (page_offset token) full).1))
      all_pages-from (suc fuel) token w inside enough =
          all_pages-step (suc fuel) token w inside λ full w'.
            let at = offset-full (page_offset token) full in
            rw (sym at) (
              all_pages-from fuel (following token) w'
                (rw at (room_of-full (page_offset token) full).1)
                (rw at (step_enough (page_offset token) fuel enough)))

  -- A client that starts without a token and asks for the page after it, as long as there is a token,
  -- gets every row of the store exactly once and in its order, and comes to an end: for `n` rows it
  -- asks for `n / limit + 1` pages at most. This holds for a store that can be reached, that answers
  -- each query with the rows from its offset on, up to its limit, and whose number of rows is an `int`.
  pub all_pages_lem :
      (rows : List (CorrelationResult F)) (w : W)
      → Serves x r req rows
      → length rows < int_limit
      → (all_pages (suc (length rows / page_limit req.page_size)) "" w).0 ≡ reply rows
  unfolding page_offset
  all_pages_lem rows w s small =
      all_pages-from rows s small (length rows / page_limit req.page_size) "" w (omega arith)
        (enough (page_limit req.page_size) (page_limit_bounds req).0)
    where
      enough : (limit : ℕ) → 1 ≤ limit → length rows < 0 + length rows / limit * limit + limit
      enough limit h = omega (arith, lt-div-mul-add {a = length rows} {b = limit} h)
