-- ===== src/Coherence/Handover.antt =====
-- src/network/handlers.c: a page on its way from node to node, step by step.
use user_level_dsm.Prelude.{
  ℕ, List, ◌≢◌, ◌≡◌, ◌∷◌, [], true, false, ==_ne, some, ==_refl, refl, arith, Bool-cases, inl, ◌<◌,
  inr,
}
use user_level_dsm.Coherence.Transfer.{
  dispatch_message, Hosts, calm, received, Holds, served_write, given_up-Holds, received-Holds,
  receive_lem,
}
use user_level_dsm.Coherence.Reply.{handle_page_reply, passes_on, pass_on}
use user_level_dsm.Coherence.{
  PageNode, Payload, page_reply, page_request, silent, Letter, posted, slot_of,
}
use user_level_dsm.PageTable.{PageEntry}
use user_level_dsm.Types.{
  AccessType, invalid, write, success, perm_none, read_write, perm_read_write, max_nodes,
}
use user_level_dsm.Coherence.Request.{
  send_page_reply, routed, is_remote, handle_page_request, request_invalid, proxy,
  send_page_request,
}
use user_level_dsm.Directory.{Directory, Entry, find_entry}
use user_level_dsm.Coherence.Spaces.{found_has_tables}
use user_level_dsm.Directory.Table.{lookup_present}

-- The reply to a request for write access.
abbrev pub write_reply : PageNode → (page : ℕ) → PageEntry → ℕ → Payload
write_reply owner page e requester = page_reply page 0 write requester (owner.memory e.local_addr)

passes_on_self : (n : PageNode) (sender : ℕ) → passes_on n sender n.node_id ≡ false
passes_on_self n sender =
    rw (==_refl n.node_id)
      (elim (Bool-cases n.role.is_manager) [ inl h ↦ rw h refl | inr h ↦ rw h refl ])

pub asker_receives :
    (sender : ℕ) (n : PageNode) (page version : ℕ) (a : AccessType) (bytes : List ℕ) (e : PageEntry)
    → Hosts n page e
    → dispatch_message calm n sender (page_reply page version a n.node_id bytes)
      ≡ silent success (received n page version a bytes e)
unfolding handle_page_reply dispatch_message
asker_receives sender n page version a bytes e h =
    rw (handle_page_reply, found_has_tables n page e h.found, passes_on_self n sender, h.found)
      (receive_lem n page version a bytes e h)

-- A node with a valid copy of a page that serves a request for write access, with no failing system
-- call, sends one reply with its bytes, and is left without access to the page. The node that asked,
-- when it handles the reply from any sender, holds these bytes with read and write access.
pub write_handover :
    (owner asker : PageNode) (page sender : ℕ) (e f : PageEntry)
    → Hosts owner page e
    → Hosts asker page f
    → e.state ≢ invalid
    → let bytes = owner.memory e.local_addr in
      let s = dispatch_message calm owner sender (page_request page write asker.node_id) in
      let reply = write_reply owner page e asker.node_id in
      (s.status ≡ success)
      × (s.letters
          ≡ (record {
            target = routed owner asker.node_id;
            sender = owner.node_id;
            payload = reply;
          })
            ∷ [])
      × Holds s.after page invalid perm_none bytes
      × Holds
          (dispatch_message calm asker owner.node_id reply).after
          page
          read_write
          perm_read_write
          bytes
unfolding dispatch_message send_page_reply
write_handover owner asker page sender e f h h' valid =
    rw (served_write owner page e asker.node_id h valid) (
      refl,
      refl,
      given_up-Holds owner page e asker.node_id h,
      rw (asker_receives owner.node_id asker page 0 write (owner.memory e.local_addr) f h')
          (received-Holds asker page 0 write (owner.memory e.local_addr) f h'),
    )

-- A manager with the page mapped but invalid, whose directory names `owner`, and which is connected
-- to `asker`: the star in which two workers reach each other.
pub record Relays (m : PageNode) (page owner asker : ℕ) : Type 0 where
  pub manages : m.role.is_manager ≡ true
  pub entry : PageEntry
  pub mapped : Hosts m page entry
  pub stale : entry.state ≡ invalid
  pub dir : Directory
  pub has_dir : m.directory ≡ some dir
  pub on_record : Entry
  pub recorded : find_entry dir page ≡ some on_record
  pub names : on_record.owner ≡ owner
  pub other_owner : owner ≢ m.node_id
  pub other_asker : asker ≢ m.node_id
  pub apart : asker ≢ owner
  pub fits : (owner < max_nodes) × (asker < max_nodes)
  pub reaches : (slot_of m asker).connected ≡ true

-- What the manager sends on.
abbrev pub relayed : PageNode → (target : ℕ) → Payload → Letter
relayed m target payload = record { target = target; sender = m.node_id; payload = payload }

is_remote-owner :
    (m : PageNode) (page owner asker : ℕ) → Relays m page owner asker → is_remote m owner ≡ true
is_remote-owner m page owner asker r =
    rw (==_ne owner m.node_id r.other_owner) (ground (arith, r.fits.0))

proxied :
    (m : PageNode) (page owner asker : ℕ) (a : AccessType)
    → Relays m page owner asker
    → proxy calm m page a asker ≡ (some (relayed m owner (page_request page a asker)), m)
unfolding proxy
proxied m page owner asker a r = ground (
  arith,
  r.manages,
  r.has_dir,
  lookup_present true r.dir page r.on_record r.recorded,
  r.names,
  is_remote-owner m page owner asker r,
)

request_relayed :
    (m : PageNode) (page owner asker : ℕ) (a : AccessType)
    → Relays m page owner asker
    → handle_page_request calm m page a asker
      ≡ posted calm (relayed m owner (page_request page a asker)) m
unfolding handle_page_request request_invalid proxy
request_relayed m page owner asker a r =
    rw (handle_page_request, found_has_tables m page r.entry r.mapped.found, r.mapped.found)
      (simp (r.stale, proxied m page owner asker a r, request_invalid))

passes_on-asker :
    (m : PageNode) (page owner asker : ℕ)
    → Relays m page owner asker
    → passes_on m owner asker ≡ true
passes_on-asker m page owner asker r =
    rw (r.manages, ==_ne asker m.node_id r.other_asker, ==_ne asker owner r.apart)
      (ground (arith, r.fits.1))

reply_relayed :
    (m : PageNode) (page version owner asker : ℕ) (a : AccessType) (bytes : List ℕ)
    → Relays m page owner asker
    → handle_page_reply calm m owner page version a asker bytes
      ≡ posted calm (relayed m asker (page_reply page version a asker bytes)) m
unfolding handle_page_reply pass_on
reply_relayed m page version owner asker a bytes r =
    rw
      (
        handle_page_reply,
        found_has_tables m page r.entry r.mapped.found,
        passes_on-asker m page owner asker r,
        pass_on,
        r.reaches,
      )
      refl

routed_to-manager : (n : PageNode) (target : ℕ) → n.role.is_manager ≡ false → routed n target ≡ 0
routed_to-manager n target h = ground (arith, h)

-- Worker to worker, in a star around the manager: the request of `asker` goes to the manager, which
-- sends it on to the owner on record without touching its own state; the owner's reply goes to the
-- manager, which sends it on likewise. In the end the owner has no access to the page, and `asker`
-- holds the owner's bytes with read and write access.
pub relayed_handover :
    (m owner asker : PageNode) (page : ℕ) (e f : PageEntry)
    → Relays m page owner.node_id asker.node_id
    → Hosts owner page e
    → Hosts asker page f
    → e.state ≢ invalid
    → m.node_id ≡ 0
    → owner.role.is_manager ≡ false
    → asker.role.is_manager ≡ false
    → let bytes = owner.memory e.local_addr in
      let request = page_request page write asker.node_id in
      let reply = write_reply owner page e asker.node_id in
      let served = dispatch_message calm owner m.node_id request in
      (send_page_request asker owner.node_id page write
        ≡ record { target = m.node_id; sender = asker.node_id; payload = request })
      × (dispatch_message calm m asker.node_id request
          ≡ posted calm (relayed m owner.node_id request) m)
      × (served.letters
          ≡ (record { target = m.node_id; sender = owner.node_id; payload = reply }) ∷ [])
      × (dispatch_message calm m owner.node_id reply
          ≡ posted calm (relayed m asker.node_id reply) m)
      × Holds served.after page invalid perm_none bytes
      × Holds
          (dispatch_message calm asker m.node_id reply).after
          page
          read_write
          perm_read_write
          bytes
unfolding dispatch_message send_page_reply send_page_request
relayed_handover m owner asker page e f r h h' valid at_zero worker worker' =
    let a = asker.node_id in
    let bytes = owner.memory e.local_addr in
    rw (served_write owner page e a h valid) (
      rw (routed_to-manager asker owner.node_id worker', at_zero) refl,
      request_relayed m page owner.node_id a write r,
      rw (routed_to-manager owner a worker, at_zero) refl,
      reply_relayed m page 0 owner.node_id a write bytes r,
      given_up-Holds owner page e a h,
      rw (asker_receives m.node_id asker page 0 write bytes f h')
          (received-Holds asker page 0 write bytes f h'),
    )
