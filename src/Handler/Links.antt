-- ===== src/Handler/Links.antt =====
-- The handlers of internal/handler/link.go, for the tenant that the request runs as.
pub mod Writes
use go_link_shortener.Base.{Bool, ℕ, Option, none, some, Bytes, codes, ℤ, pos, List, map, length}
use go_link_shortener.Domain.Errors.{Result, ok, err}
use go_link_shortener.Domain.Link.{Link}
use go_link_shortener.Http.{
  Reply, json, link_body, links_body, no_body, respond_error, respond_validation,
}
use go_link_shortener.Http.Views.{to_response}
use go_link_shortener.Service.World.{World}
use go_link_shortener.Service.Links
use go_link_shortener.Service.Links.{LinkService, CreateEnv, CreateLinkInput}
use go_link_shortener.Service.Links.Changes
use go_link_shortener.Service.Links.Changes.{ChangeEnv, UpdateLinkInput}
use go_link_shortener.Handler.Fields.{RawFields, Parsed, malformed, parsed, build_update_input}
use go_link_shortener.Handler.Request.{
  CreateLinkRequest, Decoder, with_id, atoi_default, trim_slashes,
}

pub record LinkHandler : Type 0 where
  pub svc : LinkService
  pub decoder : Decoder
  pub base_url : Bytes

unfoldable pub new_link_handler : LinkService → Decoder → Bytes → LinkHandler
unfolding trim_slashes
new_link_handler svc d base_url = record {
  svc = svc;
  decoder = d;
  base_url = trim_slashes base_url;
}

-- `respondError`, or the link with a status
answered : LinkHandler → ℕ → Result Link → Reply
unfolding to_response respond_error
answered h status (ok l) = json status (link_body (to_response h.base_url l))
answered h status (err e) = respond_error e

unfoldable pub create_input : LinkHandler → CreateLinkRequest → CreateLinkInput
create_input h req = record {
  target_url = req.url;
  custom_alias = h.decoder.json.trim_space req.custom_alias;
  redirect_type = req.redirect_type;
  expires_at = req.expires_at;
  max_clicks = req.max_clicks;
}

create_bound : LinkHandler → CreateEnv → ℕ → Option CreateLinkRequest → World → Reply × World
unfolding answered create_input
create_bound h env tenant none w = (respond_validation (codes "request body must be valid JSON"), w)
create_bound h env tenant (some req) w =
    let (link, w') = Links.create h.svc env tenant (create_input h req) w in
    (answered h 201 link, w')

unfoldable pub create : LinkHandler → CreateEnv → ℕ → Bytes → World → Reply × World
unfolding create_bound
create h env tenant body w = create_bound h env tenant (h.decoder.bind_link body) w

listed : LinkHandler → Result (List Link) → Reply
unfolding to_response respond_error
listed h (err e) = respond_error e
listed h (ok links) = json 200 (links_body (map (to_response h.base_url) links) (length links))

unfoldable pub list : LinkHandler → Bool → ℕ → Bytes → Bytes → World → Reply
unfolding listed atoi_default
list h fault tenant limit offset w = listed h (
    Links.list fault tenant (atoi_default h.decoder limit (pos 50))
      (atoi_default h.decoder offset (pos 0)) w)

unfoldable pub get_link : LinkHandler → Bool → ℕ → Bytes → World → Reply
unfolding answered with_id
get_link h fault tenant param w =
    with_id h.decoder param (λ reply. reply) λ id. answered h 200 (Links.get_link fault tenant id w)

update_with : LinkHandler → ChangeEnv → ℕ → ℕ → Parsed UpdateLinkInput → World → Reply × World
unfolding answered
update_with h env tenant id (malformed message) w = (respond_validation message, w)
update_with h env tenant id (parsed input) w =
    let (link, w') = Changes.update h.svc env tenant id input w in (answered h 200 link, w')

update_fields : LinkHandler → ChangeEnv → ℕ → ℕ → Option RawFields → World → Reply × World
unfolding update_with build_update_input
update_fields h env tenant id none w =
    (respond_validation (codes "request body must be a valid JSON object"), w)
update_fields h env tenant id (some fields) w =
    update_with h env tenant id (build_update_input h.decoder.json fields) w

-- `none` is a body that cannot be read
update_body : LinkHandler → ChangeEnv → ℕ → ℕ → Option Bytes → World → Reply × World
unfolding update_fields
update_body h env tenant id none w = (respond_validation (codes "could not read request body"), w)
update_body h env tenant id (some body) w =
    update_fields h env tenant id (h.decoder.bind_fields body) w

unfoldable pub update : LinkHandler → ChangeEnv → ℕ → Bytes → Option Bytes → World → Reply × World
unfolding update_body with_id
update h env tenant param body w =
    with_id h.decoder param (λ reply. (reply, w)) λ id. update_body h env tenant id body w

deleted : Result (Unit {0}) → Reply
unfolding respond_error
deleted (ok u) = json 204 no_body
deleted (err e) = respond_error e

unfoldable pub delete : LinkHandler → ChangeEnv → ℕ → Bytes → World → Reply × World
unfolding deleted with_id
delete h env tenant param w =
    with_id h.decoder param (λ reply. (reply, w))
      λ id. let (done, w') = Changes.delete h.svc env tenant id w in (deleted done, w')
