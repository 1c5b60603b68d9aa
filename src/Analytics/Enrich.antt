-- ===== src/Analytics/Enrich.antt =====
-- internal/analytics/ip.go and event.go: what the pipeline stores of a raw click.
pub mod Masking
use go_link_shortener.Base.{
  ℕ, zero, suc, Bool, ◌&&◌, Option, none, some, List, [], ◌∷◌, ◌++◌, Bytes, bytes_eq, length, take,
  drop, ◌==◌, if◌then◌else◌,
}
use go_link_shortener.Store.Db.{Click}
use go_link_shortener.Analytics.UserAgent.{parse_user_agent}

pub record ClickEvent : Type 0 where
  pub link_id : ℕ
  pub tenant_id : ℕ
  pub code : Bytes
  pub occurred_at : ℕ
  pub referrer : Bytes
  pub user_agent : Bytes
  pub ip : Bytes

-- What is read from elsewhere: `strings.TrimSpace`, `strings.ToLower`, `net.ParseIP` (16 bytes for
-- every address), the hexadecimal SHA-256, and the GeoResolver, which may fail.
pub record Enricher : Type 0 where
  pub trim_space : Bytes → Bytes
  pub to_lower : Bytes → Bytes
  pub parse_ip : Bytes → Option Bytes
  pub sha256_hex : Bytes → Bytes
  pub country : Bytes → Option Bytes

abbrev pub zeros : ℕ → Bytes
zeros zero = []
zeros (suc n) = 0 ∷ zeros n

-- the prefix of an IPv4 address in 16 bytes
abbrev pub v4_prefix : Bytes
v4_prefix = zeros 10 ++ (255 ∷ 255 ∷ [])

-- net.IP.To4
unfoldable pub to4 : Bytes → Option Bytes
unfolding bytes_eq
to4 ip =
    if length ip == 4
    then some ip
    else if length ip == 16 && bytes_eq (take 12 ip) v4_prefix
    then some (drop 12 ip)
    else none

mask_v6 : Bytes → Option Bytes
mask_v6 ip = if length ip == 16 then some (take 6 ip ++ zeros 10) else none

mask : Bytes → Option Bytes → Option Bytes
unfolding mask_v6
mask ip (some v4) = some (take 3 v4 ++ (0 ∷ []))
mask ip none = mask_v6 ip

unfoldable pub anonymize_ip : Enricher → Bytes → Option Bytes
unfolding mask to4
anonymize_ip e raw = elim (e.parse_ip raw) [ none ↦ none | some ip ↦ mask ip (to4 ip) ]

unfoldable pub hash_ip : Enricher → Bytes → Bytes → Bytes
unfolding anonymize_ip
hash_ip e raw salt = elim (anonymize_ip e raw) [
  | none ↦ []
  | some masked ↦ e.sha256_hex (salt ++ masked)
]

resolved : Option Bytes → Bytes
resolved none = []
resolved (some c) = c

country_of : Enricher → Option Bytes → Bytes
unfolding resolved
country_of e none = []
country_of e (some ip) = resolved (e.country ip)

unfoldable pub enrich : Enricher → Bytes → ClickEvent → Click
unfolding parse_user_agent country_of hash_ip
enrich e salt c =
    let ua = parse_user_agent e.trim_space e.to_lower c.user_agent in
    record {
      link_id = c.link_id;
      tenant_id = c.tenant_id;
      occurred_at = c.occurred_at;
      referrer = c.referrer;
      user_agent = c.user_agent;
      browser = ua.browser;
      os = ua.os;
      device = ua.device;
      country = country_of e (e.parse_ip c.ip);
      ip_hash = hash_ip e c.ip salt;
    }
