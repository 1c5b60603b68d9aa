-- ===== src/Handler/Links/Writes.antt =====
-- What the handlers of links do to the world: nothing, or one call of the service.
use go_link_shortener.Base.{ℕ, Bytes, Option, none, some}
use go_link_shortener.Service.World.{World}
use go_link_shortener.Service.Links
use go_link_shortener.Service.Links.{CreateEnv, CreateLinkInput}
use go_link_shortener.Service.Links.Changes
use go_link_shortener.Service.Links.Changes.{ChangeEnv, UpdateLinkInput}
use go_link_shortener.Http.{Reply}
use go_link_shortener.Handler.Fields.{RawFields, Parsed, malformed, parsed}
use go_link_shortener.Handler.Request.{CreateLinkRequest, with_id-holds}
use go_link_shortener.Handler.Links.{
  LinkHandler, create_input, create_bound, create, update_with, update_fields, update_body, update,
  delete,
}

module _ (P : World → Type 0) (h : LinkHandler) where
  create_bound-world :
      (env : CreateEnv) (tenant : ℕ) (req : Option CreateLinkRequest) (w : World)
      → P w
      → ((input : CreateLinkInput) → P (Links.create h.svc env tenant input w).1)
      → P (create_bound h env tenant req w).1
  unfolding create_bound
  create_bound-world env tenant none w p k = p
  create_bound-world env tenant (some req) w p k = k (create_input h req)

  pub create-world :
      (env : CreateEnv) (tenant : ℕ) (body : Bytes) (w : World)
      → P w
      → ((input : CreateLinkInput) → P (Links.create h.svc env tenant input w).1)
      → P (create h env tenant body w).1
  unfolding create
  create-world env tenant body w p k = create_bound-world env tenant _ w p k

  module _ (env : ChangeEnv) (tenant : ℕ) (w : World) (kept : P w) where
    update_with-world :
        (id : ℕ) (r : Parsed UpdateLinkInput)
        → ((input : UpdateLinkInput) → P (Changes.update h.svc env tenant id input w).1)
        → P (update_with h env tenant id r w).1
    unfolding update_with
    update_with-world id (malformed message) k = kept
    update_with-world id (parsed input) k = k input

    update_fields-world :
        (id : ℕ) (r : Option RawFields)
        → ((input : UpdateLinkInput) → P (Changes.update h.svc env tenant id input w).1)
        → P (update_fields h env tenant id r w).1
    unfolding update_fields
    update_fields-world id none k = kept
    update_fields-world id (some fields) k = update_with-world id _ k

    update_body-world :
        (id : ℕ) (body : Option Bytes)
        → ((input : UpdateLinkInput) → P (Changes.update h.svc env tenant id input w).1)
        → P (update_body h env tenant id body w).1
    unfolding update_body
    update_body-world id none k = kept
    update_body-world id (some body) k = update_fields-world id (h.decoder.bind_fields body) k

    pub update-world :
        (param : Bytes) (body : Option Bytes)
        → ((id : ℕ) (input : UpdateLinkInput) → P (Changes.update h.svc env tenant id input w).1)
        → P (update h env tenant param body w).1
    unfolding update
    update-world param body k =
        with_id-holds (λ (p : Reply × World). P p.1) h.decoder param (λ reply. (reply, w)) _
          (λ reply. kept) λ id. update_body-world id body (k id)

    pub delete-world :
        (param : Bytes)
        → ((id : ℕ) → P (Changes.delete h.svc env tenant id w).1)
        → P (delete h env tenant param w).1
    unfolding delete
    delete-world param k =
        with_id-holds (λ (p : Reply × World). P p.1) h.decoder param (λ reply. (reply, w)) _
          (λ reply. kept) k
