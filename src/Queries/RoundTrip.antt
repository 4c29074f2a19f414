-- ===== src/Queries/RoundTrip.antt =====
-- What `PushParam` writes into the query is what `Queries` reads from it.
use easy_http.Prelude.{
  ℕ, ◌≡◌, refl, ap, ◌∙◌, [], ◌∷◌, ◌++◌, some, true, false, map, append-nil, append_assoc, All,
  All-append,
}
use easy_http.Bytes.{Bytes, c_str, is_empty}
use easy_http.Outcome.{ok}
use easy_http.ParamList.{ParamList, insert}
use easy_http.ParamList.Laws.{IsSorted, insert_all, insert_all_entries}
use easy_http.World.External.{Platform}
use easy_http.Queries.{matches, add_param, decode, add_matches, parse_query, encode, render}
use easy_http.Queries.Matches.{
  IsWord, Ends, matches-match, matches-skip, matches-nil, match_at-pair, match_at-ampersand,
}
use easy_http.Queries.Texts.{
  IsCText, c_str_whole, IsQueryText, IsPlain-IsWord, IsPlain-IsQueryText, IsQueryText-IsCText,
  IsCodec, IsParam,
}

module _ (pf : Platform) (encoded : Bytes → Bytes) (codec : IsCodec pf encoded) where
  c_str-encoded : (s : Bytes) → IsCText s → c_str (encoded s) ≡ encoded s
  c_str-encoded s h =
      c_str_whole (encoded s)
        (IsQueryText-IsCText _ (IsPlain-IsQueryText _ (codec.is_plain_text s h)))

  pub encode_lem : (s : Bytes) → IsCText s → encode pf s ≡ ok (encoded s)
  unfolding encode
  encode_lem s h = rw (codec.encodes s h, encode) (ap ok (c_str-encoded s h))

  pub decode_lem : (s : Bytes) → IsCText s → decode pf (encoded s) ≡ ok s
  unfolding decode
  decode_lem s h =
      let e = ap (λ t. pf.uridecode t true) (c_str-encoded s h) ∙ codec.decodes s h in
      rw (e, decode) (ap ok (c_str_whole s h))

  -- The parameters after the first.
  tail_text : ParamList → Bytes
  tail_text [] = []
  tail_text (p ∷ ps) = b'&' ∷ (encoded p.0 ++ (b'=' ∷ (encoded p.1 ++ tail_text ps)))

  tail_text-Ends : (ps : ParamList) → Ends (tail_text ps)
  unfolding tail_text
  tail_text-Ends [] = tt
  tail_text-Ends (p ∷ ps) = refl

  render-nonempty :
      (c : ℕ) (acc : Bytes) (ps : ParamList)
      → All IsParam ps
      → render pf (c ∷ acc) ps ≡ ok ((c ∷ acc) ++ tail_text ps)
  unfolding render tail_text
  render-nonempty c acc [] h = rw append-nil
  render-nonempty c acc (p ∷ ps) h =
      let k = encode_lem p.0 (h.0).key_text in
      let v = encode_lem p.1 (h.0).value_text in
      rw
        (
          k,
          v,
          render,
          render-nonempty c (acc ++ (b'&' ∷ (encoded p.0 ++ (b'=' ∷ encoded p.1)))) ps h.1,
        )
        (ap ok (simp append_assoc))

  -- The query that is written.
  query_text : ParamList → Bytes
  query_text [] = []
  query_text (p ∷ ps) = encoded p.0 ++ (b'=' ∷ (encoded p.1 ++ tail_text ps))

  render_lem : (ps : ParamList) → All IsParam ps → render pf [] ps ≡ ok (query_text ps)
  unfolding render query_text
  render_lem [] h = refl
  render_lem (p ∷ ps) h =
      let k = encode_lem p.0 (h.0).key_text in
      let v = encode_lem p.1 (h.0).value_text in
      let full = codec.keeps_nonempty p.0 (h.0).key_text (h.0).key_nonempty in
      rw (k, v, render) (first (encoded p.0) full)
    where
      first :
          (k : Bytes)
          → is_empty k ≡ false
          → render pf (k ++ (b'=' ∷ encoded p.1)) ps
            ≡ ok (k ++ (b'=' ∷ (encoded p.1 ++ tail_text ps)))
      first [] e = cc
      first (c ∷ k) e =
          render-nonempty c (k ++ (b'=' ∷ encoded p.1)) ps h.1 ∙ ap ok (simp append_assoc)

  abbrev encoded_pair : Bytes × Bytes → Bytes × Bytes
  encoded_pair p = (encoded p.0, encoded p.1)

  matches-pair :
      (k v rest : Bytes)
      → IsWord k
      → is_empty k ≡ false
      → IsWord v
      → Ends rest
      → matches (k ++ (b'=' ∷ (v ++ rest))) ≡ (k, v) ∷ matches rest
  matches-pair [] v rest h e w r = cc
  matches-pair (c ∷ k) v rest h e w r = matches-match _ (match_at-pair c k v rest h w r)

  matches-param :
      (p : Bytes × Bytes) (ps : ParamList)
      → IsParam p
      → matches (encoded p.0 ++ (b'=' ∷ (encoded p.1 ++ tail_text ps)))
        ≡ encoded_pair p ∷ matches (tail_text ps)
  matches-param p ps h =
      matches-pair (encoded p.0) (encoded p.1) (tail_text ps)
        (IsPlain-IsWord _ (codec.is_plain_text p.0 h.key_text))
        (codec.keeps_nonempty p.0 h.key_text h.key_nonempty)
        (IsPlain-IsWord _ (codec.is_plain_text p.1 h.value_text)) (tail_text-Ends ps)

  matches-tail_text :
      (ps : ParamList) → All IsParam ps → matches (tail_text ps) ≡ map encoded_pair ps
  unfolding tail_text
  matches-tail_text [] h = matches-nil
  matches-tail_text (p ∷ ps) h =
      matches-skip _ _ (match_at-ampersand _)
      ∙ matches-param p ps h.0
      ∙ ap (λ l. encoded_pair p ∷ l) (matches-tail_text ps h.1)

  matches-query_text :
      (ps : ParamList) → All IsParam ps → matches (query_text ps) ≡ map encoded_pair ps
  unfolding query_text
  matches-query_text [] h = matches-nil
  matches-query_text (p ∷ ps) h =
      matches-param p ps h.0 ∙ ap (λ l. encoded_pair p ∷ l) (matches-tail_text ps h.1)

  add_matches-encoded :
      (list ps : ParamList)
      → All IsParam ps
      → add_matches pf list (map encoded_pair ps) ≡ ok (insert_all list ps)
  unfolding add_matches add_param insert_all
  add_matches-encoded list [] h = refl
  add_matches-encoded list ((k, v) ∷ ps) h =
      let dk = decode_lem k (h.0).key_text in
      let dv = decode_lem v (h.0).value_text in
      rw (dk, dv, add_matches, (h.0).key_plain) (add_matches-encoded (insert k v list) ps h.1)

  query_pair-IsQueryText :
      (p : Bytes × Bytes) (ps : ParamList)
      → IsParam p
      → IsQueryText (tail_text ps)
      → IsQueryText (encoded p.0 ++ (b'=' ∷ (encoded p.1 ++ tail_text ps)))
  query_pair-IsQueryText p ps h k =
      All-append _ (encoded p.0) _ (IsPlain-IsQueryText _ (codec.is_plain_text p.0 h.key_text)) (
        refl,
        All-append _ (encoded p.1) _ (IsPlain-IsQueryText _ (codec.is_plain_text p.1 h.value_text))
            k,
      )

  tail_text-IsQueryText : (ps : ParamList) → All IsParam ps → IsQueryText (tail_text ps)
  unfolding tail_text
  tail_text-IsQueryText [] h = tt
  tail_text-IsQueryText (p ∷ ps) h =
      (refl, query_pair-IsQueryText p ps h.0 (tail_text-IsQueryText ps h.1))

  query_text-IsQueryText : (ps : ParamList) → All IsParam ps → IsQueryText (query_text ps)
  unfolding query_text
  query_text-IsQueryText [] h = tt
  query_text-IsQueryText (p ∷ ps) h = query_pair-IsQueryText p ps h.0 (tail_text-IsQueryText ps h.1)

  -- For a codec, and a sorted map of parameters whose texts hold no NUL and whose keys are neither
  -- empty nor marked as arrays: the rendering of the map is a text of query characters, and parsing
  -- it gives the same map.
  pub parse_query-render :
      (ps : ParamList)
      → IsSorted ps
      → All IsParam ps
      → (query : Bytes) × IsQueryText query
        × (render pf [] ps ≡ ok query)
        × (parse_query pf (some query) ≡ ok ps)
  unfolding parse_query
  parse_query-render ps s h = (
    query_text ps,
    query_text-IsQueryText ps h,
    render_lem ps h,
    rw (matches-query_text ps h) (add_matches-encoded [] ps h ∙ ap ok (insert_all_entries ps s)),
  )
