-- ===== src/Oci/Registry/Told.antt =====
-- What src/fls/oci/registry.rs tells a registry, and when.
use mathlib.Core.Path.{subst}
use fls.Base.{sym, inl, inr, ◌≡◌, refl, List, [], ◌∷◌, ◌++◌, Option, none, some}
use fls.Oci.Text.{Text}
use fls.Oci.Reference.{ImageReference, Parsed, parsed, rejected, parse}
use fls.Oci.Manifest.{Descriptor, Manifest, image, index, find_linux_manifest}
use fls.Oci.Auth.{Credentials, credentials}
use fls.Oci.Registry.Reads.{
  ManifestRead, PlatformOf, manifest_in-ManifestRead, find_linux_manifest-PlatformOf,
}
use fls.Oci.Registry.{
  HttpRequest, HttpResponse, Server, Json, Outcome, ok, failed, RegistryClient, no_platform,
  add_auth, or_fail, then_talk, ok_of, ◌>>=◌, send_request, request_failed,
}
use fls.Oci.Registry.Client.{
  manifest_in, authenticate, fetch_manifest, fetch_manifest_by_digest, resolve_manifest, connected,
  connect_and_resolve, new_client, resolved,
}
use fls.Oci.Registry.Protocol.{
  client, ask_manifest, ask_image, Fails, NoImageIn, Entry, no_manifest, brought, no_image,
  brought_image, ToldIn, ToldBy, Entered,
}
use fls.Oci.Registry.Silent.{manifest_in-IsSilent}
use fls.Oci.Registry.Entered.{authenticate-Entered}

module _ (json : Json) (server : Server) (r : ImageReference) (k : Credentials) where
  resolved-Told :
      (t : Option Text) (before : List HttpRequest) (s : HttpResponse) (m : Manifest)
      → Entry json server r k t before
      → server before (ask_manifest r k t) ≡ some s
      → ManifestRead json s (ok m)
      → ToldIn json server r k (
          then_talk
            (resolved json server (client r k t) m (before ++ ask_manifest r k t ∷ []))
            (λ m'. ok_of (client r k t, m')))
  unfolding fetch_manifest_by_digest send_request add_auth
  resolved-Told t before s (image m) en hs hb = brought t before s m en hs hb
  resolved-Told t before s (index i) en hs hb = found (find_linux_manifest i) refl
    where
      told :
          (d : Descriptor) (u : HttpResponse) (o : Outcome Manifest)
          → find_linux_manifest i ≡ some d
          → server (before ++ ask_manifest r k t ∷ []) (ask_image r k t d.digest) ≡ some u
          → (manifest_in json u []).0 ≡ o
          → ToldIn json server r k (
              then_talk
                (o, (before ++ ask_manifest r k t ∷ []) ++ ask_image r k t d.digest ∷ [])
                (λ m'. ok_of (client r k t, m')))
      told d u (ok m) hd hu e =
          brought_image t before s u i d m en hs hb
            (subst (PlatformOf i) hd (find_linux_manifest-PlatformOf i)) hu
            (subst (ManifestRead json u) e (manifest_in-ManifestRead json u))
      told d u (failed x) hd hu e =
          no_image x t before s i d en hs hb
            (subst (PlatformOf i) hd (find_linux_manifest-PlatformOf i))
            (subst (Fails (λ v. ManifestRead json v (failed x)) x) (sym hu)
              (subst (ManifestRead json u) e (manifest_in-ManifestRead json u)))

      answered :
          (d : Descriptor) (o : Option HttpResponse)
          → find_linux_manifest i ≡ some d
          → server (before ++ ask_manifest r k t ∷ []) (ask_image r k t d.digest) ≡ o
          → ToldIn json server r k (
              then_talk
                (then_talk
                  (or_fail request_failed o
                    ((before ++ ask_manifest r k t ∷ []) ++ ask_image r k t d.digest ∷ []))
                  (manifest_in json))
                (λ m'. ok_of (client r k t, m')))
      answered d none hd hu =
          no_image request_failed t before s i d en hs hb
            (subst (PlatformOf i) hd (find_linux_manifest-PlatformOf i))
            (subst (Fails (λ v. ManifestRead json v (failed request_failed)) request_failed)
              (sym hu) refl)
      answered d (some u) hd hu =
          rw
            (manifest_in-IsSilent json u
              ((before ++ ask_manifest r k t ∷ []) ++ ask_image r k t d.digest ∷ []))
            (told d u (manifest_in json u []).0 hd hu refl)

      found :
          (o : Option Descriptor)
          → find_linux_manifest i ≡ o
          → ToldIn json server r k (
              then_talk
                (then_talk
                  (or_fail no_platform o (before ++ ask_manifest r k t ∷ []))
                  (λ d. fetch_manifest_by_digest json server d.digest (client r k t)))
                (λ m'. ok_of (client r k t, m')))
      found none hd = no_manifest no_platform t before en (
          subst (Fails (NoImageIn json no_platform) no_platform) (sym hs)
            (inr (i, hb, subst (PlatformOf i) hd (find_linux_manifest-PlatformOf i), refl)))
      found (some d) hd =
          answered d (server (before ++ ask_manifest r k t ∷ []) (ask_image r k t d.digest)) hd refl

  resolve_manifest-Told :
      (t : Option Text) (before : List HttpRequest)
      → Entry json server r k t before
      → ToldIn json server r k (
          then_talk
            (resolve_manifest json server (client r k t) before)
            (λ m. ok_of (client r k t, m)))
  unfolding resolve_manifest fetch_manifest send_request add_auth
  resolve_manifest-Told t before en = by (server before (ask_manifest r k t)) refl
    where
      told :
          (s : HttpResponse) (o : Outcome Manifest)
          → server before (ask_manifest r k t) ≡ some s
          → (manifest_in json s []).0 ≡ o
          → ToldIn json server r k (
              then_talk
                (then_talk
                  (o, before ++ ask_manifest r k t ∷ [])
                  (resolved json server (client r k t)))
                (λ m. ok_of (client r k t, m)))
      told s (ok m) hs e =
          resolved-Told t before s m en hs
            (subst (ManifestRead json s) e (manifest_in-ManifestRead json s))
      told s (failed x) hs e = no_manifest x t before en (
          subst (Fails (NoImageIn json x) x) (sym hs)
            (inl (subst (ManifestRead json s) e (manifest_in-ManifestRead json s))))

      by :
          (o : Option HttpResponse)
          → server before (ask_manifest r k t) ≡ o
          → ToldIn json server r k (
              then_talk
                (then_talk
                  (then_talk
                    (or_fail request_failed o (before ++ ask_manifest r k t ∷ []))
                    (manifest_in json))
                  (resolved json server (client r k t)))
                (λ m. ok_of (client r k t, m)))
      by none hs =
          no_manifest request_failed t before en
            (subst (Fails (NoImageIn json request_failed) request_failed) (sym hs) refl)
      by (some s) hs =
          rw (manifest_in-IsSilent json s (before ++ ask_manifest r k t ∷ []))
            (told s (manifest_in json s []).0 hs refl)

-- An image's name that is no reference is refused with no request. Otherwise, whatever the registry
-- answers, the first request asks for its version without credentials. If that is answered with 401
-- and a challenge that can be read, the second asks for a token where the challenge says, with the
-- user's name and password if there are any. After 200, or with the token of the answer, the manifest
-- is asked for, with the name and password only if there is no token; where it is an index, its first
-- linux image for arm64, or else for amd64, is asked for by digest. There is no other request. The
-- result is the manifest of the last answer; an error is returned only where the last request is not
-- answered, or its response is refused, cannot be read, or has no challenge, token, manifest or
-- image, and tells which.
pub connect_and_resolve-ToldBy :
    (json : Json) (server : Server) (username password : Option Text) (image_name : Text)
    → ToldBy json server
        (credentials username password)
        (parse image_name)
        (connect_and_resolve json server username password image_name [])
unfolding connect_and_resolve
connect_and_resolve-ToldBy json server username password image_name = by (parse image_name)
  where
    entered :
        (r : ImageReference) (o : Outcome RegistryClient × List HttpRequest)
        → Entered json server r (credentials username password) o
        → ToldIn json server r
            (credentials username password)
            (then_talk o (λ c. resolve_manifest json server c >>= λ m. ok_of (c, m)))
    entered r (failed e, sent) h = h
    entered r (ok c, sent) h =
        rw h.1 (resolve_manifest-Told json server r (credentials username password) h.0 sent h.2)

    by :
        (p : Parsed ImageReference)
        → ToldBy json server
            (credentials username password)
            p
            (connected json server username password p [])
    by (rejected e) = refl
    by (parsed r) =
        entered r (authenticate json server (new_client r username password) [])
          (authenticate-Entered json server r (credentials username password))
