-- ===== src/Multisig/Draft/History.antt =====
-- Any sequence of requests to MultisigDraftService, from any users, with any failures of the database.
use latch_api.Multisig.Draft.Deployed.{predict_address-IsSound, deploy-IsSound}
use latch_api.Multisig.Draft.Additions.{add_member-IsSound, add_member_via_invite-IsSound}
use latch_api.Multisig.Draft.Invariant.{
  keeps, create_draft-IsSound, update_threshold-IsSound, delete_member-IsSound,
}
use latch_api.Multisig.Draft.Apart.{IsSound}
use latch_api.Multisig.Tables.{DraftTables}
use latch_api.Signers.{DraftMultisigMember}
use latch_api.Multisig.Draft.Factory.{SmartAccountFactory}
use latch_api.Multisig.Draft.Deployment.{predict_address, deploy}
use latch_api.Multisig.Draft.Service.{
  Ambient, get_active_draft, get_draft_for_creator, get_public_draft_by_token, DraftAction,
  create_draft, update_threshold, add_member, delete_member, add_member_via_invite,
}
use latch_api.Common.{ℕ, List, [], ◌∷◌}
use latch_api.Common.Text.{Text}
use latch_api.Common.Database.{World, Keeps}
use latch_api.External.{External}

pub data Call : Type 0 where
  create : Ambient → Text → Call
  get_active : Text → Call
  get : Text → Text → Call
  set_threshold : Text → Text → ℕ → Call
  add : Ambient → Text → Text → DraftMultisigMember → Call
  delete : Text → Text → Text → Call
  predict : Text → Text → Call
  deploy_draft : Ambient → Text → Text → Call
  view_invite : Ambient → Text → Call
  join : Ambient → Text → Text → DraftMultisigMember → Call

module _ (ext : External) (factory : SmartAccountFactory) where
  abbrev after : {A : Type 0} → World DraftTables → DraftAction A → World DraftTables
  after w m = (m w).1

  -- The tables after one request.
  unfoldable pub perform : Call → World DraftTables → World DraftTables
  perform (create amb user) w = after w (create_draft ext amb user)
  perform (get_active user) w = after w (get_active_draft ext user)
  perform (get draft user) w = after w (get_draft_for_creator ext draft user)
  perform (set_threshold draft user k) w = after w (update_threshold ext draft user k)
  perform (add amb draft user m) w = after w (add_member ext amb draft user m)
  perform (delete draft member user) w = after w (delete_member ext draft member user)
  perform (predict draft user) w = after w (predict_address ext factory draft user)
  perform (deploy_draft amb draft user) w = after w (deploy ext factory amb draft user)
  perform (view_invite amb token) w = after w (get_public_draft_by_token ext amb token)
  perform (join amb token user m) w = after w (add_member_via_invite ext amb token user m)

  unfoldable pub perform_all : List Call → World DraftTables → World DraftTables
  unfolding perform
  perform_all [] w = w
  perform_all (c ∷ cs) w = perform_all cs (perform c w)

  get_active_draft-IsSound : (user : Text) → Keeps (IsSound ext) (get_active_draft ext user)
  unfolding get_active_draft
  get_active_draft-IsSound user = search keeps depth 12

  get_draft_for_creator-IsSound :
      (draft user : Text) → Keeps (IsSound ext) (get_draft_for_creator ext draft user)
  unfolding get_draft_for_creator
  get_draft_for_creator-IsSound draft user = search keeps depth 16

  view_invite-IsSound :
      (amb : Ambient) (token : Text) → Keeps (IsSound ext) (get_public_draft_by_token ext amb token)
  unfolding get_public_draft_by_token
  view_invite-IsSound amb token = search keeps depth 16

  perform-IsSound :
      (c : Call) (w : World DraftTables) → IsSound ext w.store → IsSound ext (perform c w).store
  unfolding perform
  perform-IsSound (create amb user) w h = (create_draft-IsSound ext amb user).run w h
  perform-IsSound (get_active user) w h = (get_active_draft-IsSound user).run w h
  perform-IsSound (get draft user) w h = (get_draft_for_creator-IsSound draft user).run w h
  perform-IsSound (set_threshold draft user k) w h =
      (update_threshold-IsSound ext draft user k).run w h
  perform-IsSound (add amb draft user m) w h = (add_member-IsSound ext amb draft user m).run w h
  perform-IsSound (delete draft member user) w h =
      (delete_member-IsSound ext draft member user).run w h
  perform-IsSound (predict draft user) w h =
      (predict_address-IsSound ext factory draft user).run w h
  perform-IsSound (deploy_draft amb draft user) w h =
      (deploy-IsSound ext factory amb draft user).run w h
  perform-IsSound (view_invite amb token) w h = (view_invite-IsSound amb token).run w h
  perform-IsSound (join amb token user m) w h =
      (add_member_via_invite-IsSound ext amb token user m).run w h

  -- After any requests, with any of their database calls failing, every stored member is valid, no draft
  -- holds the same key twice, and every threshold is at least 1, if that held before.
  pub perform_all-IsSound :
      (cs : List Call) (w : World DraftTables)
      → IsSound ext w.store
      → IsSound ext (perform_all cs w).store
  unfolding perform_all
  perform_all-IsSound [] w h = h
  perform_all-IsSound (c ∷ cs) w h = perform_all-IsSound cs (perform c w) (perform-IsSound c w h)
