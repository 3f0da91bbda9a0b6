-- ===== src/Linux/Root/Told.antt =====
-- crates/court-hosted-linux/src/root.rs: the handlers of a lookup, a denied open and a grant tell a
-- court of no ring but in answer to an open that the core allowed to that court.
use court_kernel.Prelude.{
  ◌≡◌, ◌⊎◌, String, Option, some, Memᴰ, get, string_Key, nat_Key, pair_Key, ok,
}
use court_kernel.Hosted.Rights.{Rights}
use court_kernel.Hosted.Types.{CourtId, CapId, Descriptor}
use court_kernel.Hosted.Root.{open_cap, grant_corridor_cap}
use court_kernel.Linux.Protocol.{WireCap, WireStatus, WireRingInfo, WireMessage}
use court_kernel.Linux.Root.{World, RootState, Act}
use court_kernel.Linux.Root.Disclosed.{sent_to}

abbrev state_of : World → RootState
state_of w = w.state

module _ (court : String) (st : WireStatus) (c : Option WireCap) (info : WireRingInfo) where
  abbrev pub told : WireMessage
  told = WireMessage.open_result st c (some info)

  -- An action that does not tell the court of that ring.
  abbrev Silent : {A : Type 0} → Act A → Type 0
  Silent act = (w : World) → Memᴰ told (sent_to (act w).1 court) → Memᴰ told (sent_to w court)

  -- The core allowed an open by the court of that name, with a capability that the root keeps, in the state that the
  -- grant to this court left.
  abbrev pub IsGranted : String → Rights → World → Type 0
  IsGranted path rights w =
      (id : CourtId) × (d : Descriptor) × (held : CapId) × (asked : Rights) × (o : CapId) × (get
          w.state.court_ids court
        ≡ some id)
      × (get w.state.descriptors path ≡ some d)
      × ((open_cap id d (some held) asked (grant_corridor_cap id d rights w.state.root).1).0 ≡ ok o)
      × (st ≡ WireStatus.ok)
      × (get w.state.ring_info path ≡ some info)

  -- The end of the handler, from a state with that root.
  abbrev Opens : String → CourtId → Descriptor → World → Type 0
  Opens path id d w =
      Memᴰ told (sent_to w court)
      ⊎ ((held : CapId) × (asked : Rights) × (o : CapId) × ((open_cap id d (some held) asked
              w.state.root).0
            ≡ ok o)
          × (st ≡ WireStatus.ok)
          × (get w.state.ring_info path ≡ some info))
