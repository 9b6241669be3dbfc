-- ===== src/Procfs/Net.antt =====
-- src/procfs.rs: `parse_net_dev`, `parse_net_tcp_inodes` and `socket_inode_from_link`.
pub mod Printed
use vitals.Prelude.{
  ℕ, Option, none, some, List, map, if◌then◌else◌, ltb, ◌==◌, get_or, get_elem?, length, drop,
  filter_map, ◌>>=◌,
}
use vitals.Procfs.{NetDev}
use vitals.Procfs.Stat.{number_or_zero}
use vitals.Text.Number.{parse_u64}
use vitals.Text.{
  Text, codes, trim, split_ascii_whitespace, lines, split_once, strip_prefix, strip_suffix,
}

-- One line of `/proc/net/dev`; `none` is `continue`.
unfoldable pub net_dev_line : Text → Option NetDev
unfolding trim split_ascii_whitespace split_once parse_u64
net_dev_line line = do
  (name, rest) ← split_once b':' line
  let f = map number_or_zero (split_ascii_whitespace rest)
  if ltb (length f) 16
      then none
      else some (record {
        name = trim name;
        rx_bytes = get_or f 0 0;
        rx_packets = get_or f 1 0;
        rx_errs = get_or f 2 0;
        rx_drop = get_or f 3 0;
        tx_bytes = get_or f 8 0;
        tx_packets = get_or f 9 0;
        tx_errs = get_or f 10 0;
        tx_drop = get_or f 11 0;
      })

unfoldable pub parse_net_dev : Text → List NetDev
unfolding net_dev_line lines
parse_net_dev s = filter_map net_dev_line (drop 2 (lines s))

-- One line of `/proc/net/tcp`: a tenth field that is a number other than 0.
unfoldable pub tcp_line : Text → Option ℕ
unfolding split_ascii_whitespace parse_u64
tcp_line line = do
  field ← get_elem? (split_ascii_whitespace line) 9
  inode ← parse_u64 field
  if inode == 0 then none else some inode

unfoldable pub parse_net_tcp_inodes : Text → List ℕ
unfolding tcp_line lines
parse_net_tcp_inodes s = filter_map tcp_line (drop 1 (lines s))

unfoldable pub socket_inode_from_link : Text → Option ℕ
unfolding strip_prefix strip_suffix parse_u64
socket_inode_from_link target = do
  rest ← strip_prefix (codes "socket:[") target
  inode ← strip_suffix (codes "]") rest
  parse_u64 inode
