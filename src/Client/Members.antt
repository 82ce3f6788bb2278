-- ===== src/Client/Members.antt =====
-- The URLs that `member_add` of src/client.rs sends.
use Prim.Native.String.{◌++◌}
use text.Mathlib.Text.{starts_with}
use text.Mathlib.TextPositions.{starts_with-append}
use etcd_client.Prelude.{
  String, Bool, true, false, ◌≡◌, refl, sym, ◌∙◌, ap, ap₂, false≢true, ◌||◌, List, [], ◌∷◌, map,
  if◌then◌else◌, Bool-cases, inl, inr,
}
use etcd_client.Client.{http_prefix, https_prefix}

abbrev pub has_scheme : String → Bool
has_scheme url = starts_with url http_prefix || starts_with url https_prefix

unfoldable pub member_url : String → String
member_url e = if has_scheme e then e else http_prefix ++ e

-- The loop of `member_add`.
unfoldable pub member_urls : List String → List String
unfolding member_url
member_urls urls = map member_url urls

abbrev pub all_have_scheme : List String → Bool
all_have_scheme [] = true
all_have_scheme (url ∷ urls) =
    let rest = all_have_scheme urls in if has_scheme url then rest else false

choose-has_scheme :
    (b : Bool) (url : String)
    → has_scheme url ≡ b
    → has_scheme (if b then url else http_prefix ++ url) ≡ true
choose-has_scheme true url h = h
choose-has_scheme false url h =
    ap (λ b. b || starts_with (http_prefix ++ url) https_prefix)
      (starts_with-append http_prefix url)

has_scheme-member_url : (url : String) → has_scheme (member_url url) ≡ true
unfolding member_url
has_scheme-member_url url = choose-has_scheme (has_scheme url) url refl

member_url_fixed : (url : String) → has_scheme url ≡ true → member_url url ≡ url
unfolding member_url
member_url_fixed url h = ap (λ b. if b then url else http_prefix ++ url) h

member_urls_fixed : (urls : List String) → all_have_scheme urls ≡ true → member_urls urls ≡ urls
unfolding member_urls
member_urls_fixed [] h = refl
member_urls_fixed (url ∷ urls) h = elim (Bool-cases (has_scheme url)) [
  | inl found ↦
      ap₂ ◌∷◌ (member_url_fixed url found) (
        member_urls_fixed urls
          (sym (ap (λ b. if b then all_have_scheme urls else false) found) ∙ h))
  | inr bare ↦
      absurd (false≢true (sym (ap (λ b. if b then all_have_scheme urls else false) bare) ∙ h))
]

all_have_scheme-member_urls : (urls : List String) → all_have_scheme (member_urls urls) ≡ true
unfolding member_urls
all_have_scheme-member_urls [] = refl
all_have_scheme-member_urls (url ∷ urls) =
    ap (λ b. if b then all_have_scheme (member_urls urls) else false) (has_scheme-member_url url)
    ∙ all_have_scheme-member_urls urls

-- Every URL that `member_add` sends starts with "http://" or "https://", and a list of URLs that it
-- has made is sent as it is.
pub member_urls_normal :
    (urls : List String)
    → (all_have_scheme (member_urls urls) ≡ true)
      × (member_urls (member_urls urls) ≡ member_urls urls)
member_urls_normal urls = (
  all_have_scheme-member_urls urls,
  member_urls_fixed (member_urls urls) (all_have_scheme-member_urls urls),
)
