-- ===== src/ProxyCache/Variant/Names.antt =====
-- The header names that Vary gives, and the headers that make a variant (variant.go).
use thrust_oauth2id_server.Prelude.{
  String, ◌≡◌, refl, inl, inr, true, List, [], ◌∷◌, str_eq, eq_iff, Bool-cases,
}
use thrust_oauth2id_server.Http.Header
use thrust_oauth2id_server.Http.Header.{Header, canonical_key, get-set, get-del}
use thrust_oauth2id_server.ProxyCache.Variant.{
  Variant, matches, matches_names, variant_header, variant_header_from, set_response_header,
}

get-canonical :
    (h : Header) (a b : String)
    → canonical_key a ≡ canonical_key b
    → Header.get h a ≡ Header.get h b
unfolding Header.get
get-canonical h a b e = rw e

-- One more name is set to the request's value: what agreed with the request still does.
get-set_agrees :
    (made request : Header) (name j : String)
    → Header.get made j ≡ Header.get request j
    → Header.get (Header.set name (Header.get request name) made) j ≡ Header.get request j
get-set_agrees made request name j h =
    elim (Bool-cases (str_eq (canonical_key name) (canonical_key j))) [
      | inl same ↦ rw (get-set, same) (get-canonical request name j ((eq_iff _ _).0 same))
      | inr other ↦ rw (get-set, other) h
    ]

get-set_own :
    (made request : Header) (name : String)
    → Header.get (Header.set name (Header.get request name) made) name ≡ Header.get request name
get-set_own made request name =
    rw (get-set, (eq_iff (canonical_key name) (canonical_key name)).1 refl)

get-variant_header_from :
    (made request : Header) (names : List String) (j : String)
    → Header.get made j ≡ Header.get request j
    → Header.get (variant_header_from made request names) j ≡ Header.get request j
unfolding variant_header_from
get-variant_header_from made request [] j h = h
get-variant_header_from made request (name ∷ names) j h =
    get-variant_header_from (Header.set name (Header.get request name) made) request names j
      (get-set_agrees made request name j h)

matches_names-from :
    (made request : Header) (names : List String)
    → matches_names (variant_header_from made request names) request names ≡ true
unfolding variant_header_from matches_names
matches_names-from made request [] = refl
matches_names-from made request (name ∷ names) =
    let made' = Header.set name (Header.get request name) made in
    rw (
      (eq_iff _ _).1
          (get-variant_header_from made' request names name (get-set_own made request name)),
      matches_names-from made' request names,
    )

-- The headers that a variant stores with its response are those that it matches.
pub matches-variant_header : (v : Variant) → matches v (variant_header v) ≡ true
unfolding matches variant_header
matches-variant_header v = matches_names-from [] v.request.header v.header_names

-- Dropping the cookies of a response does not change the names that its Vary gives.
pub set_response_header-del :
    (h : Header) (v : Variant)
    → set_response_header (Header.del "Set-Cookie" h) v ≡ set_response_header h v
unfolding set_response_header canonical_key
set_response_header-del h v = rw (get-del "Set-Cookie" "Vary" h)
