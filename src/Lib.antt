-- ===== src/Lib.antt =====
-- FastRG node: the residential gateway's connection tracking, address translation, port forwarding,
-- PPP control plane, DNS proxy and DHCP server.
--
-- Conntrack models the stateful inspection of TCP flows. Conntrack is the data
-- (src/pppd/tcp_conntrack.h and the deadline helpers of src/pppd/pppd.h); Conntrack.Table is the
-- transition table of src/pppd/tcp_conntrack.c with its action handlers; Conntrack.Fsm is
-- tcp_flags_to_event, the index that tcp_conntrack_build_index fills, and tcp_conntrack_fsm_view;
-- Conntrack.Guard is tcp_conntrack_inbound_valid; Conntrack.Window is tcp_conntrack_seq_valid_view
-- and tcp_conntrack_seq_update_view; Conntrack.Path puts them together as nat_tcp_learning
-- (src/pppd/nat.h) and decaps_tcp (src/dp_codec.h) call them, and runs sequences of packets of both
-- sides. Conntrack.Index and Conntrack.Invariant hold proofs only. A view is stored by value: the
-- pointers of tcp_conntrack_view_t all lead to distinct fields of one entry. Words of the packet
-- are in host order; 32-bit and 64-bit wrap-around is written out.
--
-- Ppp models the LCP, IPCP and IPV6CP automata. Ppp is the control block, as far as the automata
-- and the teardown read or write it (src/pppd/pppd.h, src/pppd/header.h, src/pppd/fsm.h). Ppp.Lcp
-- and Ppp.Ncp are the tables of src/pppd/fsm.c row by row, Ppp.Rows the search in them. Ppp.Session
-- is what ends or gates a session (src/pppd/pppd.c, src/dhcpd6/dhcpd6.c), Ppp.Handlers the handlers
-- of the tables and PPP_bye, Ppp.Fsm is PPP_FSM. Ppp.LayerUp, Ppp.Total, Ppp.Gate, Ppp.Ended,
-- Ppp.Hangup, Ppp.Opened and Ppp.Negotiation hold the proofs; Ppp.Hangup also models the callbacks
-- of the retransmission timer. Handlers call PPP_FSM and PPP_FSM calls handlers, so a handler takes
-- PPP_FSM as an argument and ppp_fsm runs on fuel, one unit for each nested call. Five are enough.
-- IPCP and IPV6CP share the control block and the teardown with LCP; conntrack shares none of it.
--
-- PortFwd models the port-forwarding table of src/pppd/nat.h: PortFwd is the table and its
-- operations, each change written as the sequence of its stores; PortFwd.Rules is the map that the
-- table implements and PortFwd.Publish what a lookup sees between the stores. The byte-order
-- conversions of DPDK are a parameter.
--
-- Dns models the DNS proxy, src/dnsd. Dns.Name, Dns.Message and Dns.Response are the codec
-- (dns_codec.c): a packet is the list of its bytes, and a read or a write out of bounds is an
-- outcome of its own; the loop of dns_parse_name has fuel for 130 rounds more than the name's
-- buffer has bytes, which is enough since each round takes a byte of the buffer or one of 128
-- jumps. Dns.Static is the table of static records (dns_static.c) and Dns.Cache the cache
-- (dns_cache.c), a bucket as the list of its chain; both compare names with Dns.Domain. Dns.Proxy
-- is the state of dnsd.c with the pending queries and the failover, and Dns.Proxy.Packets the
-- packets from the LAN and the WAN, which go through the codec, the static records, the cache and
-- the pending queries in the code's order. A call reads the time-stamp counter once. tolower of the
-- C library, the counter and its frequency, the bytes of an address in memory and the success of an
-- allocation are parameters; checksums are left out. The children Safe, Encode, RoundTrip, Lookup,
-- Invariant, Routing, Answer and Failover hold the proofs.
--
-- Dhcp models the address pool of the DHCP server: src/dhcpd/dhcpd.c and the selection of an entry
-- in src/dhcpd/dhcp_codec.c; the array of entries is a list, and an entry is named by its place.
-- Dhcp.Leases is about the selection, Dhcp.Window about setting up the window. Dhcp.Fsm is the
-- state machine of a LAN user (src/dhcpd/dhcp_fsm.c), with the handlers as far as they change the
-- pool, and Dhcp.Expiry and Dhcp.Timeout hold the proofs about its timers. Dhcp.Request reads the
-- options of a request; its loops have fuel for one option per byte and one more, while an option
-- takes two. The layout of words in memory is a parameter.
--
-- Nat models the address translation table of src/pppd/nat.h, with the entries of src/pppd/pppd.h.
-- The arrays are functions of the slot, and the number of slots is a parameter, MAX_NAT_ENTRIES in
-- the code. An rte_hash is a parameter with the laws that DPDK documents; the indices in the defer
-- queue of the reverse hash are part of the state, and how many of them DPDK hands to the callback
-- at a call is a parameter. Nat.Slots is about the slots (the callback, the deletion of keys, the
-- scan, the allocation) and Nat.Learning about the packets from both sides; the loop over the
-- candidate ports has fuel for the 64,536 ports there are, which is enough since it takes one turn
-- for each. Nat.Init is the initial table. Nat.Invariant says what holds between calls: where each
-- slot is and what the two hashes say of it; a table is settled when no READY slot has a reverse
-- key that another slot has taken over. Nat.Count, Nat.Reclaim, Nat.Keys, Nat.Trim, Nat.Gc,
-- Nat.Alloc, Nat.Publish, Nat.Insert, Nat.Walk, Nat.Room, Nat.Progress, Nat.Avoids, Nat.Live and
-- Nat.History hold the proofs; Nat.Assoc is a table of bounded size that obeys the laws, on which
-- Nat.Examples runs. A call reads the clock once, and calls of several lcores do not overlap.
--
-- From elsewhere come, as the record Ppp.Env: whether the credentials fit the frame of the PAP
-- request, whether a Code-Reject can be built, the value of FALSE read as a STATUS, and
-- MAX_RECV_UNIT. Frames sent and states reported are listed as outputs, without their bytes. A DPDK
-- timer is stood for by the callback it is set to.
--
-- Not modelled: the bytes of PPP and PPPoE frames (src/pppd/codec.c), the creation and release of
-- the DPDK objects of the NAT table, the IPv6 firewall, the other messages of the DHCP server, DNS
-- over TCP, neighbour discovery and the MAC table, and the northbound interfaces, metrics and
-- start-up, which are input and output around libraries. Log lines have no counterpart. Memory
-- ordering of the gates between threads is not modelled: all calls here are made by one thread.
pub mod Base
pub mod Conntrack
pub mod Ppp
pub mod PortFwd
pub mod Nat
pub mod Dns
pub mod Dhcp
