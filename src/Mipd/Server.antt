-- ===== src/Mipd/Server.antt =====
-- mipd/src/lib/server.{h,c}: the state of the MIP daemon and what its handlers exchange with the rest
-- of the host.
pub mod Forwarding
pub mod Applications
pub mod Frames
pub mod Loop
pub mod Sockets
mod Tests
use network_course_uio.Prelude.{ℕ, Bool, Option, none, some, List, [], ℤ, pos, negsuc, get_elem?}
use network_course_uio.Routerd.MipRouteTable.{MipRouteTablePackage}
use network_course_uio.Mipd.InterfaceTable.{InterfaceTable, InterfaceRecord}
use network_course_uio.Mipd.MipArp.{MipArpCache, Outgoing, create_cache}
use network_course_uio.Mipd.Packaging.EtherFrame.{BytePointer}
use network_course_uio.Mipd.Packaging.MipPackage.{MipPackage}

-- `struct LocalSocket`
pub record LocalSocket : Type 0 where
  pub listening_socket_fd : ℤ
  pub connected_socket_fd : ℤ

-- `struct ForwardQueueEntry`: `queued` is its `package`.
pub record ForwardQueueEntry : Type 0 where
  pub destination : ℕ
  pub queued : MipPackage
  pub age_milli : ℕ

-- `struct MIPDServer`; its forward queue is the list of the values from first to last.
pub record MipdServer : Type 0 where
  pub app_socket : LocalSocket
  pub route_socket : LocalSocket
  pub forward_socket : LocalSocket
  pub i_table : InterfaceTable
  pub cache : MipArpCache
  pub forward_queue : List ForwardQueueEntry

-- `MIPDServer_create`
unfoldable pub create :
    (app_socket route_socket forward_socket : LocalSocket)
    → InterfaceTable
    → (cache_update_freq_milli : ℕ) → MipdServer
create app_socket route_socket forward_socket table cache_update_freq_milli = record {
  app_socket = app_socket;
  route_socket = route_socket;
  forward_socket = forward_socket;
  i_table = table;
  cache = create_cache cache_update_freq_milli;
  forward_queue = [];
}

-- What the daemon gives to the host: a frame to a raw socket, a destination to the forward socket, a
-- route table to the route socket, bytes to the application.
pub data Output : Type 0 where
  to_link : Outgoing → Output
  to_forward_socket : ℕ → Output
  to_route_socket : MipRouteTablePackage → Output
  to_application : List ℕ → Output

-- What a handler takes from the host: the time; whether its `sendto` or `send`, and its `write`,
-- succeed; the value that the function `ForwardQueue_push`, which has no return statement, leaves to
-- its caller; and the pointers whose own bytes go into frames.
pub record World : Type 0 where
  pub now : ℕ
  pub sent : Bool
  pub written : Bool
  pub pushed : ℤ
  pub own_mac : BytePointer
  pub peer_mac : BytePointer

-- `&table->interfaces[i]`, for a position that is in use
unfoldable pub interface_at : InterfaceTable → ℤ → Option InterfaceRecord
interface_at table (pos i) = get_elem? table.interfaces i
interface_at table (negsuc _) = none
