-- ===== src/Analytics/UserAgent.antt =====
-- internal/analytics/useragent.go. `TrimSpace` and `ToLower` of the strings package know Unicode
-- and are parameters.
use go_link_shortener.Base.{
  Bool, ◌||◌, List, [], ◌∷◌, Bytes, codes, bytes_eq, contains, any, if◌then◌else◌,
}

pub record UserAgent : Type 0 where
  pub browser : Bytes
  pub os : Bytes
  pub device : Bytes

abbrev pub device_desktop : Bytes
device_desktop = codes "desktop"

abbrev pub device_mobile : Bytes
device_mobile = codes "mobile"

abbrev pub device_tablet : Bytes
device_tablet = codes "tablet"

abbrev pub device_bot : Bytes
device_bot = codes "bot"

abbrev pub unknown : Bytes
unknown = codes "unknown"

abbrev pub bot_markers : List Bytes
bot_markers =
    codes "bot"
    ∷ codes "crawler"
    ∷ codes "spider"
    ∷ codes "slurp"
    ∷ codes "curl"
    ∷ codes "wget"
    ∷ codes "python-requests"
    ∷ codes "headlesschrome"
    ∷ []

unfoldable pub is_bot : Bytes → Bool
unfolding contains
is_bot ua = any (contains ua) bot_markers

unfoldable pub detect_browser : Bytes → Bytes
unfolding contains
detect_browser ua =
    if contains ua (codes "edg")
    then codes "Edge"
    else if contains ua (codes "opr/") || contains ua (codes "opera")
    then codes "Opera"
    else if contains ua (codes "firefox")
    then codes "Firefox"
    else if contains ua (codes "chrome") || contains ua (codes "crios")
    then codes "Chrome"
    else if contains ua (codes "safari")
    then codes "Safari"
    else unknown

unfoldable pub detect_os : Bytes → Bytes
unfolding contains
detect_os ua =
    if contains ua (codes "windows")
    then codes "Windows"
    else if contains ua (codes "android")
    then codes "Android"
    else if contains ua (codes "iphone") || contains ua (codes "ipad") || contains ua (codes "ios")
    then codes "iOS"
    else if contains ua (codes "mac os x") || contains ua (codes "macintosh")
    then codes "macOS"
    else if contains ua (codes "linux")
    then codes "Linux"
    else unknown

unfoldable pub detect_device : Bytes → Bytes
unfolding contains
detect_device ua =
    if contains ua (codes "ipad") || contains ua (codes "tablet")
    then device_tablet
    else if contains ua (codes "mobi")
        || contains ua (codes "iphone")
        || contains ua (codes "android")
    then device_mobile
    else device_desktop

unfoldable pub parse_user_agent : (Bytes → Bytes) → (Bytes → Bytes) → Bytes → UserAgent
unfolding bytes_eq is_bot detect_browser detect_os detect_device
parse_user_agent trim_space to_lower raw =
    if bytes_eq (trim_space raw) []
    then record { browser = unknown; os = unknown; device = unknown }
    else let lower = to_lower raw in
      if is_bot lower
      then record { browser = codes "bot"; os = detect_os lower; device = device_bot }
      else record {
        browser = detect_browser lower;
        os = detect_os lower;
        device = detect_device lower;
      }
