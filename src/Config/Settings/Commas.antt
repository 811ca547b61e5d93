-- ===== src/Config/Settings/Commas.antt =====
-- A list of URLs that is written with commas is read back.
use proxy_hopper_v.Common.{◌≡◌, ◌≢◌, refl, ◌∙◌, ap, false, List, [], ◌∷◌, ◌++◌, arith, Text}
use proxy_hopper_v.Strings.{has, split, strip}
use proxy_hopper_v.Config.Settings.{stripped, comma_split}

-- ",".join(urls)
unfoldable pub comma_join : List Text → Text
comma_join [] = []
comma_join (u ∷ []) = u
comma_join (u ∷ v ∷ us) = u ++ b',' ∷ comma_join (v ∷ us)

-- A URL with no comma and no space around it.
pub record IsPlain (u : Text) : Type 0 where
  pub no_comma : has b',' u ≡ false
  pub no_space : strip u ≡ u
  pub some_text : u ≢ []

abbrev pub ArePlain : List Text → Type 0
ArePlain [] = Unit
ArePlain (u ∷ us) = IsPlain u × ArePlain us

split-no_comma : (u : Text) → has b',' u ≡ false → split b',' u ≡ u ∷ []
unfolding has split
split-no_comma [] h = refl
split-no_comma (c ∷ u) h = ground (arith, split-no_comma u)

split-append : (u s : Text) → has b',' u ≡ false → split b',' (u ++ b',' ∷ s) ≡ u ∷ split b',' s
unfolding has split
split-append [] s h = refl
split-append (c ∷ u) s h = ground (arith, split-append u s)

stripped-plain : (u : Text) (us : List Text) → IsPlain u → stripped (u ∷ us) ≡ u ∷ stripped us
unfolding stripped
stripped-plain [] us h = absurd (h.some_text refl)
stripped-plain (c ∷ u) us h = rw (stripped, h.no_space)

-- URLs with no comma in them and no space around them, joined with commas, come back one by one and
-- in their order.
pub comma_split-comma_join :
    (u : Text) (us : List Text) → ArePlain (u ∷ us) → comma_split (comma_join (u ∷ us)) ≡ u ∷ us
unfolding comma_split comma_join stripped
comma_split-comma_join u [] (h, k) = rw (split-no_comma u h.no_comma) (stripped-plain u [] h)
comma_split-comma_join u (v ∷ us) (h, k) = rw (split-append u (comma_join (v ∷ us)) h.no_comma) (
    stripped-plain u (split b',' (comma_join (v ∷ us))) h
    ∙ ap (λ ws. u ∷ ws) (comma_split-comma_join v us k))
