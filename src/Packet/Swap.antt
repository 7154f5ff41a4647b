-- ===== src/Packet/Swap.antt =====
-- Byte order of the numbers in a packet (server/src/dhcp_packet.c).
use dhcpv4_server_with_gui_c.Prelude.{ℕ, ◌^◌, ◌<◌, ◌≡◌, arith}
use dhcpv4_server_with_gui_c.Packet.{swap_u32, swap_u16}

pub swap_u32-RoundTrip : (n : ℕ) → n < 2 ^ 32 → swap_u32 (swap_u32 n) ≡ n
unfolding swap_u32
swap_u32-RoundTrip n h = omega arith

pub swap_u16-RoundTrip : (n : ℕ) → n < 2 ^ 16 → swap_u16 (swap_u16 n) ≡ n
unfolding swap_u16
swap_u16-RoundTrip n h = omega arith
