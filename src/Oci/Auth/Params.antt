-- ===== src/Oci/Auth/Params.antt =====
-- What src/fls/oci/auth.rs reads from a header that asks for a token.
use fls.Base.{
  ℕ, ◌≡◌, refl, ap, sym, ◌∙◌, ◌⊎◌, inl, inr, Bool, true, false, not, ◌||◌, [], ◌∷◌, ◌++◌, arith,
  Bool-cases, ◌==◌, append_assoc, append-nil, Option, none, some,
}
use fls.Oci.Text.{Text, all, codes, contains}
use fls.Oci.Maps.{Map, get, insert}
use fls.Oci.Auth.{
  Scan, scan_char, scan_all, last_value, parse_auth_params, WwwAuthenticate, parse_www_authenticate,
  with_realm,
}

abbrev pub is_key_char : ℕ → Bool
is_key_char c = not ((c == 61) || ((c == 34) || ((c == 44) || (c == 32))))

-- A value in quotes, and a list of them between commas
abbrev pub render : Text → Text → Text
render key value = key ++ 61 ∷ 34 ∷ (value ++ 34 ∷ [])

abbrev pub render_all : Map Text → Text
render_all [] = []
render_all ((key, value) ∷ []) = render key value
render_all ((key, value) ∷ p ∷ ps) = render key value ++ 44 ∷ render_all (p ∷ ps)

abbrev pub insert_all : Map Text → Map Text → Map Text
insert_all [] m = m
insert_all ((key, value) ∷ ps) m = insert_all ps (insert key value m)

abbrev pub CanRender : Map Text → Type 0
CanRender [] = Unit
CanRender ((key, value) ∷ ps) =
    (all is_key_char key ≡ true) × (contains 34 value ≡ false) × CanRender ps

-- Between two parameters, and within a key or a quoted value
abbrev between : Map Text → Scan
between m = record { params = m; key = []; value = []; in_value = false; in_quotes = false }

abbrev in_key : Map Text → Text → Scan
in_key m k = record { params = m; key = k; value = []; in_value = false; in_quotes = false }

abbrev quoted : Map Text → Text → Text → Scan
quoted m k v = record { params = m; key = k; value = v; in_value = true; in_quotes = true }

scan_all-append : (s t : Text) (x : Scan) → scan_all (s ++ t) x ≡ scan_all t (scan_all s x)
unfolding scan_all
scan_all-append [] t x = refl
scan_all-append (c ∷ s) t x = scan_all-append s t (scan_char c x)

scan_key :
    (key before : Text) (m : Map Text)
    → all is_key_char key ≡ true
    → scan_all key (in_key m before) ≡ in_key m (before ++ key)
unfolding scan_all
scan_key [] before m h = ap (in_key m) (sym (append-nil before))
scan_key (c ∷ key) before m h =
    let here : is_key_char c ≡ true = ground (arith, h) in
    let rest : all is_key_char key ≡ true = ground (arith, h) in
    ap (scan_all key) (scan_key_char c before m here)
    ∙ scan_key key (before ++ c ∷ []) m rest
    ∙ ap (in_key m) (append_assoc before (c ∷ []) key)
  where
    scan_key_char :
        (c : ℕ) (before : Text) (m : Map Text)
        → is_key_char c ≡ true
        → scan_char c (in_key m before) ≡ in_key m (before ++ c ∷ [])
    scan_key_char c before m h =
        let equals : (c == 61) ≡ false = ground (arith, h) in
        let quote : (c == 34) ≡ false = ground (arith, h) in
        let comma : (c == 44) ≡ false = ground (arith, h) in
        let space : (c == 32) ≡ false = ground (arith, h) in rw (equals, quote, comma, space) refl

scan_value :
    (value before key : Text) (m : Map Text)
    → contains 34 value ≡ false
    → scan_all value (quoted m key before) ≡ quoted m key (before ++ value)
unfolding scan_all
scan_value [] before key m h = ap (quoted m key) (sym (append-nil before))
scan_value (c ∷ value) before key m h =
    let here : (c == 34) ≡ false = ground (arith, h) in
    let rest : contains 34 value ≡ false = ground (arith, h) in
    ap (scan_all value)
      (scan_value_char (Bool-cases (c == 61)) (Bool-cases (c == 44)) (Bool-cases (c == 32)) here)
    ∙ scan_value value (before ++ c ∷ []) key m rest
    ∙ ap (quoted m key) (append_assoc before (c ∷ []) value)
  where
    scan_value_char :
        ((c == 61) ≡ true) ⊎ ((c == 61) ≡ false)
        → ((c == 44) ≡ true) ⊎ ((c == 44) ≡ false)
        → ((c == 32) ≡ true) ⊎ ((c == 32) ≡ false)
        → (c == 34) ≡ false
        → scan_char c (quoted m key before) ≡ quoted m key (before ++ c ∷ [])
    scan_value_char (inl x) (inl y) (inl z) q = rw (x, q, y, z) refl
    scan_value_char (inl x) (inl y) (inr z) q = rw (x, q, y, z) refl
    scan_value_char (inl x) (inr y) (inl z) q = rw (x, q, y, z) refl
    scan_value_char (inl x) (inr y) (inr z) q = rw (x, q, y, z) refl
    scan_value_char (inr x) (inl y) (inl z) q = rw (x, q, y, z) refl
    scan_value_char (inr x) (inl y) (inr z) q = rw (x, q, y, z) refl
    scan_value_char (inr x) (inr y) (inl z) q = rw (x, q, y, z) refl
    scan_value_char (inr x) (inr y) (inr z) q = rw (x, q, y, z) refl

scan_render :
    (key value : Text) (m : Map Text)
    → all is_key_char key ≡ true
    → contains 34 value ≡ false
    → scan_all (render key value) (between m) ≡ between (insert key value m)
unfolding scan_all
scan_render key value m hk hv =
    scan_all-append key (61 ∷ 34 ∷ (value ++ 34 ∷ [])) (between m)
    ∙ ap (scan_all (61 ∷ 34 ∷ (value ++ 34 ∷ []))) (scan_key key [] m hk)
    ∙ scan_all-append value (34 ∷ []) (quoted m key [])
    ∙ ap (scan_all (34 ∷ [])) (scan_value value [] key m hv)

scan_render_all :
    (ps m : Map Text)
    → CanRender ps
    → scan_all (render_all ps) (between m) ≡ between (insert_all ps m)
unfolding scan_all
scan_render_all [] m h = refl
scan_render_all ((key, value) ∷ []) m h = scan_render key value m h.0 h.1
scan_render_all ((key, value) ∷ p ∷ ps) m h =
    scan_all-append (render key value) (44 ∷ render_all (p ∷ ps)) (between m)
    ∙ ap (scan_all (44 ∷ render_all (p ∷ ps))) (scan_render key value m h.0 h.1)
    ∙ scan_render_all (p ∷ ps) (insert key value m) h.2

-- Parameters in quotes between commas, whose keys have no '=', '"', ',' or space and whose values no
-- '"', are read as they are, whatever else the values hold; of a key that is repeated the last.
parse_auth_params-render_all :
    (ps : Map Text) → CanRender ps → parse_auth_params (render_all ps) ≡ insert_all ps []
unfolding parse_auth_params
parse_auth_params-render_all ps h = ap last_value (scan_render_all ps [] h)

-- The header of a realm, and of a service and a scope where there are any
abbrev pub optional : Text → Option Text → Map Text
optional key none = []
optional key (some value) = (key, value) ∷ []

abbrev pub header_params : WwwAuthenticate → Map Text
header_params w =
    (codes "realm", w.realm)
    ∷ (optional (codes "service") w.service ++ optional (codes "scope") w.scope)

abbrev pub header : WwwAuthenticate → Text
header w = codes "Bearer " ++ render_all (header_params w)

abbrev pub Unquoted : Option Text → Type 0
Unquoted none = Unit
Unquoted (some value) = contains 34 value ≡ false

-- A header with a realm, with or without a service and a scope, none of which has a '"', is read back
-- as what it was written from.
pub parse_www_authenticate-header :
    (w : WwwAuthenticate)
    → contains 34 w.realm ≡ false
    → Unquoted w.service
    → Unquoted w.scope
    → parse_www_authenticate (header w) ≡ some w
unfolding parse_www_authenticate
parse_www_authenticate-header w hr hs hc = by w.service w.scope hs hc
  where
    read_back :
        (ps : Map Text)
        → CanRender ps
        → with_realm
            (get (codes "realm") (parse_auth_params (render_all ps)))
            (parse_auth_params (render_all ps))
          ≡ with_realm (get (codes "realm") (insert_all ps [])) (insert_all ps [])
    read_back ps h =
        ap (λ m. with_realm (get (codes "realm") m) m) (parse_auth_params-render_all ps h)

    by :
        (service scope : Option Text)
        → Unquoted service
        → Unquoted scope
        → parse_www_authenticate
            (header (record { realm = w.realm; service = service; scope = scope }))
          ≡ some (record { realm = w.realm; service = service; scope = scope })
    by none none hs hc = read_back ((codes "realm", w.realm) ∷ []) (refl, hr, tt)
    by (some s) none hs hc =
        read_back ((codes "realm", w.realm) ∷ (codes "service", s) ∷ []) (refl, hr, (refl, hs, tt))
    by none (some c) hs hc =
        read_back ((codes "realm", w.realm) ∷ (codes "scope", c) ∷ []) (refl, hr, (refl, hc, tt))
    by (some s) (some c) hs hc =
        read_back ((codes "realm", w.realm) ∷ (codes "service", s) ∷ (codes "scope", c) ∷ [])
          (refl, hr, (refl, hs, (refl, hc, tt)))
