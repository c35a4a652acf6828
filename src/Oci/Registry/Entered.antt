-- ===== src/Oci/Registry/Entered.antt =====
-- How src/fls/oci/registry.rs authenticates.
use mathlib.Core.Path.{subst}
use fls.Base.{
  ℕ, ◌≢◌, sym, false, arith, ==_iff, ◌≡◌, refl, Bool-cases, inl, inr, [], ◌∷◌, Option, none, some,
  ◌==◌,
}
use fls.Oci.Text.{Text}
use fls.Oci.Reference.{ImageReference}
use fls.Oci.Auth.{Credentials, WwwAuthenticate, parse_www_authenticate}
use fls.Oci.Registry.Reads.{TokenRead, token_in-TokenRead}
use fls.Oci.Registry.{
  RegistryError, HttpResponse, Header, absent, unreadable, header_text, Server, Json, Outcome, ok,
  failed, or_fail, then_talk, no_challenge, unreadable_challenge, no_realm, unexpected_status,
  ok_of, ◌>>=◌, send_request, request_failed,
}
use fls.Oci.Registry.Client.{token_in, request_token, on_knock, authenticate, challenge_in}
use fls.Oci.Registry.Protocol.{
  client, knock, ask_token, Challenges, let_in, granted, turned_away, not_granted, Entered, Fails,
  Unwelcome, NoChallenge,
}
use fls.Oci.Registry.Silent.{token_in-IsSilent}

not_equal : (a b : ℕ) → a == b ≡ false → a ≢ b
not_equal a b e = λ h. absurd (ground arith)

module _ (json : Json) (server : Server) (r : ImageReference) (k : Credentials) where
  asked-Entered :
      (s : HttpResponse) (w : WwwAuthenticate)
      → server [] (knock r) ≡ some s
      → Challenges s w
      → Entered json server r k (
          then_talk
            (request_token json server w r.repository k (knock r ∷ []))
            (λ t. ok_of (client r k (some t))))
  unfolding request_token send_request ask_token
  asked-Entered s w hs hw = by (server (knock r ∷ []) (ask_token r k w)) refl
    where
      told :
          (u : HttpResponse) (o : Outcome Text)
          → server (knock r ∷ []) (ask_token r k w) ≡ some u
          → (token_in json u []).0 ≡ o
          → Entered json server r k
              (then_talk (o, knock r ∷ ask_token r k w ∷ []) (λ t. ok_of (client r k (some t))))
      told u (ok t) hu e = (
        some t,
        refl,
        granted s u w t hs hw hu (subst (TokenRead json u) e (token_in-TokenRead json u)),
      )
      told u (failed x) hu e = not_granted x s w hs hw (
          subst (Fails (λ v. TokenRead json v (failed x)) x) (sym hu)
            (subst (TokenRead json u) e (token_in-TokenRead json u)))

      by :
          (o : Option HttpResponse)
          → server (knock r ∷ []) (ask_token r k w) ≡ o
          → Entered json server r k (
              then_talk
                (then_talk
                  (or_fail request_failed o (knock r ∷ ask_token r k w ∷ []))
                  (token_in json))
                (λ t. ok_of (client r k (some t))))
      by none hu = not_granted request_failed s w hs hw (
          subst (Fails (λ v. TokenRead json v (failed request_failed)) request_failed) (sym hu)
            refl)
      by (some u) hu =
          rw (token_in-IsSilent json u (knock r ∷ ask_token r k w ∷ []))
            (told u (token_in json u []).0 hu refl)

  -- a response to the first request that ends it all
  refused :
      (s : HttpResponse) (e : RegistryError)
      → server [] (knock r) ≡ some s
      → Unwelcome s e
      → Entered json server r k (failed e, knock r ∷ [])
  refused s e hs h = turned_away e (subst (Fails (λ s. Unwelcome s e) e) (sym hs) h)

  away :
      (s : HttpResponse) (e : RegistryError) {h : Header}
      → server [] (knock r) ≡ some s
      → s.status ≡ 401
      → s.www_authenticate ≡ h
      → NoChallenge h e
      → Entered json server r k (failed e, knock r ∷ [])
  away s e hs hc hh h = refused s e hs (inr (hc, subst (λ x. NoChallenge x e) (sym hh) h))

  pub authenticate-Entered : Entered json server r k (authenticate json server (client r k none) [])
  unfolding authenticate send_request knock
  authenticate-Entered = by (server [] (knock r)) refl
    where
      challenged :
          (s : HttpResponse) (h : Header)
          → server [] (knock r) ≡ some s
          → s.status ≡ 401
          → s.www_authenticate ≡ h
          → Entered json server r k (
              then_talk (challenge_in h (knock r ∷ [])) (λ w.
                request_token json server w r.repository k >>= λ t. ok_of (client r k (some t))))
      challenged s absent hs hc hh = away s no_challenge hs hc hh refl
      challenged s unreadable hs hc hh = away s unreadable_challenge hs hc hh refl
      challenged s (header_text h) hs hc hh = read (parse_www_authenticate h) refl
        where
          read :
              (o : Option WwwAuthenticate)
              → parse_www_authenticate h ≡ o
              → Entered json server r k (
                  then_talk (or_fail no_realm o (knock r ∷ [])) (λ w.
                    request_token json server w r.repository k >>= λ t.
                    ok_of (client r k (some t))))
          read none e = away s no_realm hs hc hh (e, refl)
          read (some w) e =
              asked-Entered s w hs
                (record { said = h; unauthorized = hc; has_said = hh; understood = e })

      by :
          (o : Option HttpResponse)
          → server [] (knock r) ≡ o
          → Entered json server r k (
              then_talk
                (or_fail request_failed o (knock r ∷ []))
                (on_knock json server (client r k none)))
      by none hs =
          turned_away request_failed
            (subst (Fails (λ s. Unwelcome s request_failed) request_failed) (sym hs) refl)
      by (some s) hs = elim (Bool-cases (s.status == 200)) [
        | inl e ↦ rw e (none, refl, let_in s hs ((==_iff s.status 200).0 e))
        | inr e ↦ elim (Bool-cases (s.status == 401)) [
          | inl f ↦ rw (e, f) (challenged s s.www_authenticate hs ((==_iff s.status 401).0 f) refl)
          | inr f ↦
              rw (e, f)
                (refused s (unexpected_status s.status) hs
                  (inl (not_equal s.status 200 e, not_equal s.status 401 f, refl)))
        ]
      ]
