-- ===== src/Nic/Parse.antt =====
-- Packets as a receiver takes them apart: a reference for what nic/tcp.c, nic/udp.c and nic/garp.c
-- build, written from the formats of Ethernet, ARP, IPv4, TCP and UDP.
use modules.Common.{
  ℕ, ◌+◌, ◌*◌, ◌/◌, ◌&&◌, Option, none, some, List, ltb, ◌==◌, if◌then◌else◌, take, drop, length,
  get_or,
}

-- `n` bytes from a place on, and a number of two bytes there, in network order.
abbrev pub slice : (at n : ℕ) → List ℕ → List ℕ
slice at n bytes = take n (drop at bytes)

abbrev pub number_at : (at : ℕ) → List ℕ → ℕ
number_at at bytes = get_or bytes at 0 * 256 + get_or bytes (at + 1) 0

pub record EtherFrame : Type 0 where
  pub destination : List ℕ
  pub source : List ℕ
  pub ether_type : ℕ
  pub body : List ℕ

abbrev pub parse_ether : List ℕ → Option EtherFrame
parse_ether bytes =
    if ltb (length bytes) 14
    then none
    else some (record {
      destination = slice 0 6 bytes;
      source = slice 6 6 bytes;
      ether_type = number_at 12 bytes;
      body = drop 14 bytes;
    })

-- An IPv4 packet of version 4 with no options, not a fragment, whose total length is its own.
pub record Ipv4 : Type 0 where
  pub ttl : ℕ
  pub protocol : ℕ
  pub header_checksum : List ℕ
  pub source : List ℕ
  pub destination : List ℕ
  pub body : List ℕ

abbrev pub parse_ipv4 : List ℕ → Option Ipv4
parse_ipv4 bytes =
    if get_or bytes 0 0 == 0x45 && number_at 2 bytes == length bytes && number_at 6 bytes == 0
    then some (record {
      ttl = get_or bytes 8 0;
      protocol = get_or bytes 9 0;
      header_checksum = slice 10 2 bytes;
      source = slice 12 4 bytes;
      destination = slice 16 4 bytes;
      body = drop 20 bytes;
    })
    else none

-- A TCP segment with no options.
pub record Tcp : Type 0 where
  pub source_port : ℕ
  pub destination_port : ℕ
  pub sequence : List ℕ
  pub acknowledgment : List ℕ
  pub window : ℕ
  pub checksum : List ℕ
  pub body : List ℕ

abbrev pub parse_tcp : List ℕ → Option Tcp
parse_tcp bytes =
    if get_or bytes 12 0 / 16 * 4 == 20
    then some (record {
      source_port = number_at 0 bytes;
      destination_port = number_at 2 bytes;
      sequence = slice 4 4 bytes;
      acknowledgment = slice 8 4 bytes;
      window = number_at 14 bytes;
      checksum = slice 16 2 bytes;
      body = drop 20 bytes;
    })
    else none

-- A UDP datagram whose length is its own.
pub record Udp : Type 0 where
  pub source_port : ℕ
  pub destination_port : ℕ
  pub checksum : List ℕ
  pub body : List ℕ

abbrev pub parse_udp : List ℕ → Option Udp
parse_udp bytes =
    if number_at 4 bytes == length bytes
    then some (record {
      source_port = number_at 0 bytes;
      destination_port = number_at 2 bytes;
      checksum = slice 6 2 bytes;
      body = drop 8 bytes;
    })
    else none

-- An ARP packet for Ethernet and IPv4.
pub record Arp : Type 0 where
  pub operation : ℕ
  pub sender_hw : List ℕ
  pub sender_ip : List ℕ
  pub target_hw : List ℕ
  pub target_ip : List ℕ

abbrev pub parse_arp : List ℕ → Option Arp
parse_arp bytes =
    if length bytes == 28
      && number_at 2 bytes == 0x0800
      && get_or bytes 4 0 == 6
      && get_or bytes 5 0 == 4
    then some (record {
      operation = number_at 6 bytes;
      sender_hw = slice 8 6 bytes;
      sender_ip = slice 14 4 bytes;
      target_hw = slice 18 6 bytes;
      target_ip = slice 24 4 bytes;
    })
    else none
