-- ===== src/Tests/Meanings.antt =====
-- Examples of what queries mean.
use easy_http.Prelude.{List, [], ◌∷◌, some, ◌≡◌, ◌≢◌, refl}
use easy_http.Bytes.{Bytes, text, same, lex, c_str}
use easy_http.Bytes.Order.{ne_of_same}
use easy_http.Outcome.{ok}
use easy_http.Queries.{matches, decode, is_array, parse_query}
use easy_http.Queries.Reference.{split, pairs, all_pairs, split_query}
use easy_http.Queries.Reference.Matching.{matches-split_query}
use easy_http.Queries.Meaning.{name_of, decode_all, Means, parse_query-meaning}
use easy_http.Queries.Reorder.{same_order, exchange, parse_query-Reorder}
use easy_http.Tests.{sample_platform, sample_decoded}

split_query_tests :
    (split_query (text "a=1&b[]=2&&=3&c=")
      ≡ (text "a", text "1") ∷ (text "b[]", text "2") ∷ (text "c", []) ∷ [])
    × (split_query (text "a==b=c=d&e") ≡ (text "a", []) ∷ (text "b", text "c") ∷ [])
unfolding split_query all_pairs pairs split
split_query_tests = (refl, refl)

matches-split_query_example : matches (text "a==b=c=d&e") ≡ split_query (text "a==b=c=d&e")
matches-split_query_example = matches-split_query (text "a==b=c=d&e")

abbrev first_query : Bytes
first_query = text "ab=aab&aab=ab"

abbrev second_query : Bytes
second_query = text "aab=ab&ab=aab"

parse_query-meaning_example :
    Means sample_platform
      (decode_all sample_platform (split_query first_query))
      (parse_query sample_platform (some first_query))
parse_query-meaning_example = parse_query-meaning sample_platform first_query

-- The parameters of the two queries as the sample platform decodes them.
abbrev first_params : List (Bytes × Bytes)
first_params = (1 ∷ [], 2 ∷ []) ∷ (2 ∷ [], 1 ∷ []) ∷ []

abbrev second_params : List (Bytes × Bytes)
second_params = (2 ∷ [], 1 ∷ []) ∷ (1 ∷ [], 2 ∷ []) ∷ []

first_lem : decode_all sample_platform (split_query first_query) ≡ ok first_params
unfolding split_query all_pairs pairs split decode_all decode sample_decoded c_str
first_lem = refl

second_lem : decode_all sample_platform (split_query second_query) ≡ ok second_params
unfolding split_query all_pairs pairs split decode_all decode sample_decoded c_str
second_lem = refl

names_lem : name_of (1 ∷ []) ≢ name_of (2 ∷ [])
unfolding name_of is_array same lex
names_lem e = ne_of_same (1 ∷ []) (2 ∷ []) refl e

parse_query-Reorder_example :
    parse_query sample_platform (some first_query) ≡ parse_query sample_platform (some second_query)
parse_query-Reorder_example =
    parse_query-Reorder sample_platform first_query second_query first_params second_params
      first_lem second_lem
      (exchange [] [] (1 ∷ [], 2 ∷ []) (2 ∷ [], 1 ∷ []) names_lem refl (same_order refl))
