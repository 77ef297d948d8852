-- ===== src/Legacy/Scan/Reports.antt =====
-- What a scan tells the application of the devices that send reports (bluez/gattlib_adapter.c).
use gattlibcpp.Base.{
  ℕ, suc, ◌+◌, ◌≤◌, ◌≡◌, ◌≢◌, refl, sym, ap, ◌∙◌, true, false, Option, none, some, List, [], ◌∷◌,
  ◌++◌, ◌==◌, map, length, length-append, drop, arith,
}
use mathlib.Core.List.{append_assoc, append-nil}
use gattlibcpp.World.{Text}
use gattlibcpp.World.Codes.{success}
use gattlibcpp.Legacy.Name.{parse_name}
use gattlibcpp.Legacy.Name.Fields.{Field, encode, first_name, parse_name-encode}
use gattlibcpp.Legacy.Scan.{
  HciReply, Sockets, set_filter, restore_filter, set_scan_parameters, set_scan_enable, Answer,
  poll_ended, no_input, packet, read_into, scan_report, scan_loop, ble_scan, adapter_scan_enable,
}

-- A scan response: the packet's type, the event and its length, the number of reports, the type of the
-- address, the address, the fields and the signal strength.
pub record Sent : Type 0 where
  pub packet_type : ℕ
  pub event : ℕ
  pub plen : ℕ
  pub reports : ℕ
  pub address_type : ℕ
  pub a0 : ℕ
  pub a1 : ℕ
  pub a2 : ℕ
  pub a3 : ℕ
  pub a4 : ℕ
  pub a5 : ℕ
  pub fields : List Field
  pub rssi : ℕ

abbrev pub address : Sent → List ℕ
address r = r.a0 ∷ r.a1 ∷ r.a2 ∷ r.a3 ∷ r.a4 ∷ r.a5 ∷ []

abbrev pub bytes_of_report : Sent → List ℕ
bytes_of_report r =
    r.packet_type
    ∷ r.event
    ∷ r.plen
    ∷ 2
    ∷ r.reports
    ∷ 4
    ∷ r.address_type
    ∷ r.a0
    ∷ r.a1
    ∷ r.a2
    ∷ r.a3
    ∷ r.a4
    ∷ r.a5
    ∷ length (encode r.fields)
    ∷ (encode r.fields ++ r.rssi ∷ [])

-- What comes from the controller: a scan response, another packet by its first four bytes and the rest
-- of it, or an event without input.
pub data Item : Type 0 where
  sent : Sent → Item
  other : ℕ → ℕ → ℕ → ℕ → List ℕ → Item
  quiet : Item

abbrev pub answer_of : Item → Answer
answer_of (sent r) = packet (bytes_of_report r)
answer_of (other a b c d rest) = packet (a ∷ b ∷ c ∷ d ∷ rest)
answer_of quiet = no_input

-- A packet fits in the buffer of 260 bytes; one that is no scan response is no event on advertising.
abbrev pub ItemOk : Item → Type 0
ItemOk (sent r) = length (encode r.fields) + 15 ≤ 260
ItemOk (other a b c d rest) = d ≢ 2
ItemOk quiet = Unit {0}

abbrev pub ItemsOk : List Item → Type 0
ItemsOk [] = Unit {0}
ItemsOk (i ∷ is) = ItemOk i × ItemsOk is

-- The address and the name of each device that sent a scan response, in order.
abbrev pub told_of : (List ℕ → Text) → List Item → List (Text × Option Text)
told_of ba2str [] = []
told_of ba2str (sent r ∷ is) = (ba2str (address r), first_name r.fields) ∷ told_of ba2str is
told_of ba2str (other a b c d rest ∷ is) = told_of ba2str is
told_of ba2str (quiet ∷ is) = told_of ba2str is

length-read_into : (bytes old : List ℕ) → length (read_into bytes old) ≡ length old
length-read_into bytes [] = refl
length-read_into [] (o ∷ old) = refl
length-read_into (b ∷ bytes) (o ∷ old) = ap suc (length-read_into bytes old)

read_into-append :
    (bytes old : List ℕ)
    → length bytes ≤ length old
    → read_into bytes old ≡ bytes ++ drop (length bytes) old
read_into-append [] [] h = refl
read_into-append [] (o ∷ old) h = refl
read_into-append (b ∷ bytes) [] h = absurd (omega arith)
read_into-append (b ∷ bytes) (o ∷ old) h =
    ap (λ s. b ∷ s) (read_into-append bytes old (omega arith))

module _ (ba2str : List ℕ → Text) where
  -- Fields in the buffer, with the signal strength and older bytes behind them.
  fields_lem :
      (fs : List Field) (rssi : ℕ) (old : List ℕ)
      → parse_name true ((encode fs ++ rssi ∷ []) ++ old) (length (encode fs))
        ≡ some (first_name fs)
  fields_lem fs rssi old =
      let e = parse_name-encode fs [] (rssi ∷ old) tt in
      let shape : (encode fs ++ rssi ∷ []) ++ old ≡ (encode fs ++ []) ++ rssi ∷ old =
        simp (append_assoc, append-nil) in
      ap (λ s. parse_name true s (length (encode fs))) shape
      ∙ ap (λ s. parse_name true ((encode fs ++ []) ++ rssi ∷ old) (length s))
          (sym (append-nil (encode fs)))
      ∙ e

  sent_lem :
      (r : Sent) (buffer : List ℕ)
      → length (bytes_of_report r) ≤ length buffer
      → scan_report ba2str true (read_into (bytes_of_report r) buffer)
        ≡ some (some (ba2str (address r), first_name r.fields))
  sent_lem r buffer h =
      rw (read_into-append (bytes_of_report r) buffer h)
        (rw (fields_lem r.fields r.rssi (drop (length (bytes_of_report r)) buffer)) refl)

  other_lem :
      (a b c d : ℕ) (rest buffer : List ℕ)
      → d ≢ 2
      → 4 ≤ length buffer
      → scan_report ba2str true (read_into (a ∷ b ∷ c ∷ d ∷ rest) buffer) ≡ some none
  other_lem a b c d rest (w ∷ x ∷ y ∷ z ∷ buffer) n h =
      let e : (d == 2) ≡ false = ground arith in rw e refl
  other_lem a b c d rest [] n h = absurd (omega arith)
  other_lem a b c d rest (w ∷ []) n h = absurd (omega arith)
  other_lem a b c d rest (w ∷ x ∷ []) n h = absurd (omega arith)
  other_lem a b c d rest (w ∷ x ∷ y ∷ []) n h = absurd (omega arith)

  scan_loop_lem :
      (is : List Item) (buffer : List ℕ)
      → ItemsOk is
      → length buffer ≡ 260
      → scan_loop ba2str true (map answer_of is ++ poll_ended ∷ []) buffer
        ≡ some (true, told_of ba2str is)
  unfolding scan_loop
  scan_loop_lem [] buffer h size = refl
  scan_loop_lem (quiet ∷ is) buffer (ok, h) size = scan_loop_lem is buffer h size
  scan_loop_lem (sent r ∷ is) buffer (ok, h) size =
      let long = length-append (encode r.fields) (r.rssi ∷ []) in
      let fits : length (bytes_of_report r) ≤ length buffer = omega arith in
      let rest =
        scan_loop_lem is (read_into (bytes_of_report r) buffer) h
          (length-read_into (bytes_of_report r) buffer ∙ size) in
      rw (sent_lem r buffer fits, rest) refl
  scan_loop_lem (other a b c d rest ∷ is) buffer (ok, h) size =
      let later =
        scan_loop_lem is (read_into (a ∷ b ∷ c ∷ d ∷ rest) buffer) h
          (length-read_into (a ∷ b ∷ c ∷ d ∷ rest) buffer ∙ size) in
      rw (other_lem a b c d rest buffer ok (omega arith), later) refl

-- The controller takes every call, there is memory, and the buffer has its 260 bytes.
pub record Works (reply : HciReply) : Type 0 where
  pub parameters_set : reply.parameters_set ≡ true
  pub scan_enabled : reply.scan_enabled ≡ true
  pub filter_read : reply.filter_read ≡ true
  pub filter_set : reply.filter_set ≡ true
  pub room : reply.room ≡ true
  pub buffer : length reply.unset_buffer ≡ 260

-- A scan of an open adapter, on a controller that works and where there is memory, until `poll` tells of
-- no more: whatever scan responses that fit in the buffer, packets of other events and events without
-- input come, the application is told of exactly the scan responses, in order, each with its address and
-- the name in its fields, and the call ends with success and the old filter restored, but with the scan
-- still enabled.
pub adapter_scan_enable_lem :
    (a fd : ℕ) (reply : HciReply) (is : List Item) (s : Sockets)
    → s.descriptors a ≡ some fd
    → Works reply
    → ItemsOk is
    → adapter_scan_enable a reply (map answer_of is ++ poll_ended ∷ []) s
      ≡ some (
        some success,
        told_of reply.ba2str is,
        record s {
          calls =
              restore_filter fd
              ∷ set_filter fd
              ∷ set_scan_enable fd true
              ∷ set_scan_parameters fd
              ∷ s.calls;
        },
      )
unfolding adapter_scan_enable ble_scan
adapter_scan_enable_lem a fd reply is s e ok h =
    let told = scan_loop_lem reply.ba2str is reply.unset_buffer h ok.buffer in
    rw (e, ok.parameters_set, ok.scan_enabled, ok.filter_read, ok.filter_set, ok.room, told) refl
