-- ===== src/Tests/Queries.antt =====
-- Examples of the query strings, the conversions and the headers.
use easy_http.Prelude.{List, [], ◌∷◌, map, some, true, false, ◌≡◌, refl, arith}
use easy_http.Prelude.Int.{pos}
use easy_http.Bytes.{Bytes, text, lex, same}
use easy_http.Bytes.Order.{ne_of_same}
use easy_http.Outcome.{ok}
use easy_http.ParamList.{ParamList}
use easy_http.World.{World}
use easy_http.Values.{stoi, get_val_or, ints}
use easy_http.Values.Numerals.{place_value, sign, item, stoi-numeral}
use easy_http.Queries.{matches, matches_fuel, parse_query, queries, render, add_matches, is_array}
use easy_http.Queries.Texts.{IsCText, IsParam, IsQueryText}
use easy_http.Queries.RoundTrip.{decode_lem, parse_query-render}
use easy_http.Queries.Values.{Param, raw_of, values_of, query-ints}
use easy_http.Request.{push_params}
use easy_http.Request.Params.{queries-push_params}
use easy_http.Tests.{
  sample_platform, sample-IsCodec, sample_encoded, sample-KeepsQuery, sample_world, sample_request,
  sample_base,
}

-- The map of "a" and "b c".
abbrev two_params : ParamList
two_params = (text "a", text "1") ∷ (text "b", text "x=y&z") ∷ []

matches_tests :
    (matches (text "a=1&b[]=2&&=3&c=")
      ≡ (text "a", text "1") ∷ (text "b[]", text "2") ∷ (text "c", []) ∷ [])
    × (matches (text "a&b=1=2") ≡ (text "b", text "1") ∷ [])
unfolding matches matches_fuel easy_http.Queries.match_at easy_http.Queries.span
matches_tests = (refl, refl)

key_IsParam : IsParam (text "a", text "1")
unfolding is_array same lex
key_IsParam = record {
  key_text = (refl, tt);
  value_text = (refl, tt);
  key_nonempty = refl;
  key_plain = refl;
}

other_IsParam : IsParam (text "b", text "x=y&z")
unfolding is_array same lex
other_IsParam = record {
  key_text = (refl, tt);
  value_text = (refl, (refl, (refl, (refl, (refl, tt)))));
  key_nonempty = refl;
  key_plain = refl;
}

two_params-IsSorted : easy_http.ParamList.Laws.IsSorted two_params
unfolding lex
two_params-IsSorted = (refl, (tt, tt))

parse_query-render_example :
    (query : Bytes) × IsQueryText query
    × (render sample_platform [] two_params ≡ ok query)
    × (parse_query sample_platform (some query) ≡ ok two_params)
parse_query-render_example =
    parse_query-render sample_platform sample_encoded sample-IsCodec two_params two_params-IsSorted
      (key_IsParam, (other_IsParam, tt))

queries-push_params_example :
    (w' : World) × (push_params sample_platform two_params sample_request sample_world
      ≡ (ok tt, w'))
    × (queries sample_platform sample_base.e_uri w' ≡ (ok two_params, w'))
queries-push_params_example =
    queries-push_params sample_platform sample_encoded sample-IsCodec sample-KeepsQuery
      sample_request two_params sample_world two_params-IsSorted (key_IsParam, (other_IsParam, tt))

stoi-numeral_example : stoi (text "  -42;") ≡ ok (sign true 42)
unfolding place_value
stoi-numeral_example =
    stoi-numeral (text "  ") true 4 (2 ∷ []) (text ";") (refl, (refl, tt))
      (omega arith, (omega arith, tt)) refl refl

-- A parameter as the sample platform writes it.
abbrev sent : (key value : Bytes) → IsCText key → IsCText value → Param sample_platform
sent key value h k = record {
  raw = (sample_encoded key, sample_encoded value);
  key = key;
  value = value;
  key_decoded = decode_lem sample_platform sample_encoded sample-IsCodec key h;
  value_decoded = decode_lem sample_platform sample_encoded sample-IsCodec value k;
}

-- k[]=1, a=2, k[]=-3
abbrev three_sent : List (Param sample_platform)
three_sent =
    sent (text "k[]") (text "1") (refl, (refl, (refl, tt))) (refl, tt)
    ∷ sent (text "a") (text "2") (refl, tt) (refl, tt)
    ∷ sent (text "k[]") (text "-3") (refl, (refl, (refl, tt))) (refl, (refl, tt))
    ∷ []

query-ints_example :
    (result : ParamList) × (add_matches sample_platform [] (map (raw_of sample_platform) three_sent)
      ≡ ok result)
    × (get_val_or sample_platform.stod ints result (text "k") [] ≡ pos 1 ∷ sign true 3 ∷ [])
unfolding place_value values_of same lex
query-ints_example =
    query-ints sample_platform (text "k") three_sent (item false 1 []) (item true 3 [] ∷ []) [] refl
      (ne_of_same _ _ refl, (ne_of_same _ _ refl, (ne_of_same _ _ refl, tt))) refl
      (((omega arith, tt), refl), (((omega arith, tt), refl), tt))
