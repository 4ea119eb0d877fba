-- ===== src/Rules/Feeds.antt =====
-- internal/shared/feeds.go and countries.go: which feed ids there are. Of a catalogue row only
-- the id and the name are kept: its URLs, format and texts are read by the web process alone.
use easywall.Prelude.{
  Bool, true, false, ◌&&◌, ◌++◌, ◌-◌, leb, Option, none, some, List, [], ◌∷◌, map, if◌then◌else◌,
  ◌==◌,
}
use easywall.Text.{Text, codes, same, contains}

abbrev country_feed_prefix : Text
country_feed_prefix = codes "country-"

abbrev pub country_codes : List Text
country_codes = map codes (
    "ad" ∷ "ae" ∷ "af" ∷ "ag" ∷ "ai" ∷ "al" ∷ "am" ∷ "ao" ∷ "aq" ∷ "ar" ∷ "as" ∷ "at" ∷ "au" ∷ "aw"
    ∷ "ax" ∷ "az" ∷ "ba" ∷ "bb" ∷ "bd" ∷ "be" ∷ "bf" ∷ "bg" ∷ "bh" ∷ "bi" ∷ "bj" ∷ "bl" ∷ "bm"
    ∷ "bn" ∷ "bo" ∷ "bq" ∷ "br" ∷ "bs" ∷ "bt" ∷ "bw" ∷ "by" ∷ "bz" ∷ "ca" ∷ "cd" ∷ "cf" ∷ "cg"
    ∷ "ch" ∷ "ci" ∷ "ck" ∷ "cl" ∷ "cm" ∷ "cn" ∷ "co" ∷ "cr" ∷ "cu" ∷ "cv" ∷ "cw" ∷ "cy" ∷ "cz"
    ∷ "de" ∷ "dj" ∷ "dk" ∷ "dm" ∷ "do" ∷ "dz" ∷ "ec" ∷ "ee" ∷ "eg" ∷ "er" ∷ "es" ∷ "et" ∷ "fi"
    ∷ "fj" ∷ "fk" ∷ "fm" ∷ "fo" ∷ "fr" ∷ "ga" ∷ "gb" ∷ "gd" ∷ "ge" ∷ "gf" ∷ "gg" ∷ "gh" ∷ "gi"
    ∷ "gl" ∷ "gm" ∷ "gn" ∷ "gp" ∷ "gq" ∷ "gr" ∷ "gt" ∷ "gu" ∷ "gw" ∷ "gy" ∷ "hk" ∷ "hn" ∷ "hr"
    ∷ "ht" ∷ "hu" ∷ "id" ∷ "ie" ∷ "il" ∷ "im" ∷ "in" ∷ "io" ∷ "iq" ∷ "ir" ∷ "is" ∷ "it" ∷ "je"
    ∷ "jm" ∷ "jo" ∷ "jp" ∷ "ke" ∷ "kg" ∷ "kh" ∷ "ki" ∷ "km" ∷ "kn" ∷ "kp" ∷ "kr" ∷ "kw" ∷ "ky"
    ∷ "kz" ∷ "la" ∷ "lb" ∷ "lc" ∷ "li" ∷ "lk" ∷ "lr" ∷ "ls" ∷ "lt" ∷ "lu" ∷ "lv" ∷ "ly" ∷ "ma"
    ∷ "mc" ∷ "md" ∷ "me" ∷ "mf" ∷ "mg" ∷ "mh" ∷ "mk" ∷ "ml" ∷ "mm" ∷ "mn" ∷ "mo" ∷ "mp" ∷ "mq"
    ∷ "mr" ∷ "ms" ∷ "mt" ∷ "mu" ∷ "mv" ∷ "mw" ∷ "mx" ∷ "my" ∷ "mz" ∷ "na" ∷ "nc" ∷ "ne" ∷ "nf"
    ∷ "ng" ∷ "ni" ∷ "nl" ∷ "no" ∷ "np" ∷ "nr" ∷ "nu" ∷ "nz" ∷ "om" ∷ "pa" ∷ "pe" ∷ "pf" ∷ "pg"
    ∷ "ph" ∷ "pk" ∷ "pl" ∷ "pm" ∷ "pr" ∷ "ps" ∷ "pt" ∷ "pw" ∷ "py" ∷ "qa" ∷ "re" ∷ "ro" ∷ "rs"
    ∷ "ru" ∷ "rw" ∷ "sa" ∷ "sb" ∷ "sc" ∷ "sd" ∷ "se" ∷ "sg" ∷ "si" ∷ "sk" ∷ "sl" ∷ "sm" ∷ "sn"
    ∷ "so" ∷ "sr" ∷ "ss" ∷ "st" ∷ "sv" ∷ "sx" ∷ "sy" ∷ "sz" ∷ "tc" ∷ "td" ∷ "tg" ∷ "th" ∷ "tj"
    ∷ "tk" ∷ "tl" ∷ "tm" ∷ "tn" ∷ "to" ∷ "tr" ∷ "tt" ∷ "tv" ∷ "tw" ∷ "tz" ∷ "ua" ∷ "ug" ∷ "us"
    ∷ "uy" ∷ "uz" ∷ "va" ∷ "vc" ∷ "ve" ∷ "vg" ∷ "vi" ∷ "vn" ∷ "vu" ∷ "wf" ∷ "ws" ∷ "ye" ∷ "yt"
    ∷ "za" ∷ "zm" ∷ "zw" ∷ [])

-- FeedCatalogue: the id and the name of each row.
abbrev pub feed_catalogue : List (Text × Text)
feed_catalogue =
    (codes "spamhaus-drop", codes "Spamhaus DROP")
    ∷ (codes "dshield", codes "DShield top block list")
    ∷ (codes "blocklist-de-ssh", codes "blocklist.de (SSH)")
    ∷ (codes "blocklist-de-imap", codes "blocklist.de (IMAP, POP3)")
    ∷ (codes "cins", codes "CINS Army")
    ∷ (codes "et-compromised", codes "Emerging Threats compromised")
    ∷ (codes "blocklist-de", codes "blocklist.de (all)")
    ∷ (codes "ipsum-3", codes "IPsum, on ≥ 3 lists")
    ∷ (codes "hagezi-tif", codes "Hagezi threat intelligence IPs")
    ∷ (codes "tor-exits", codes "Tor exit nodes")
    ∷ []

-- OwnFeedID of 1, 2 and MaxOwnFeeds = 3.
abbrev pub own_feeds : List Text
own_feeds = map codes ("own-1" ∷ "own-2" ∷ "own-3" ∷ [])

-- strings.CutPrefix
unfoldable pub cut_prefix : Text → Text → Option Text
cut_prefix s [] = some s
cut_prefix [] (p ∷ ps) = none
cut_prefix (c ∷ cs) (p ∷ ps) = let rest = cut_prefix cs ps in if c == p then rest else none

-- CountryCode: the code that a country's id names.
unfoldable pub country_code : Text → Option Text
unfolding cut_prefix contains
country_code id = elim (cut_prefix id country_feed_prefix) [
  | none ↦ none
  | some cc ↦ if contains cc country_codes then some cc else none
]

-- IsCountryFeedID
unfoldable pub is_country_feed : Text → Bool
unfolding country_code
is_country_feed id = elim (country_code id) [ none ↦ false | some cc ↦ true ]

-- IsOwnFeedID
unfoldable pub is_own_feed : Text → Bool
unfolding contains
is_own_feed id = contains id own_feeds

-- strings.ToUpper of a text of ASCII letters.
to_upper : Text → Text
to_upper s = map (λ c. if leb b'a' c && leb c b'z' then c - 32 else c) s

abbrev name_in : Text → List (Text × Text) → Option Text
name_in id [] = none
name_in id ((i, name) ∷ rows) = if same i id then some name else name_in id rows

-- CatalogueFeedByID, of whose row the name is kept.
unfoldable pub catalogue_name : Text → Option Text
unfolding same country_code to_upper
catalogue_name id = elim (name_in id feed_catalogue) [
  | some name ↦ some name
  | none ↦ elim (country_code id) [ none ↦ none | some cc ↦ some (to_upper cc) ]
]

-- KnownFeedID
unfoldable pub known_feed : Text → Bool
unfolding catalogue_name is_own_feed
known_feed id = elim (catalogue_name id) [ some name ↦ true | none ↦ is_own_feed id ]

-- strings.TrimPrefix
trim_prefix : Text → Text → Text
unfolding cut_prefix
trim_prefix s p = elim (cut_prefix s p) [ none ↦ s | some rest ↦ rest ]

-- FeedDisplayName
unfoldable pub feed_display_name : Text → Text
unfolding catalogue_name is_own_feed trim_prefix
feed_display_name id = elim (catalogue_name id) [
  | some name ↦ name
  | none ↦ if is_own_feed id then codes "Own feed " ++ trim_prefix id (codes "own-") else id
]
