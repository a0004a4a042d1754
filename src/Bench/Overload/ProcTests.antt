-- ===== src/Bench/Overload/ProcTests.antt =====
-- What bench/overload.py reads of /proc, at concrete files.
use zhtps.Common.{
  ℕ, ◌≡◌, refl, List, [], ◌∷◌, ◌++◌, map, String, codes, none, some, ok, err, index_error,
  value_error, All, ◌+◌,
}
use zhtps.Bench.Overload.ProcText.{Text}
use zhtps.Bench.Overload.Proc.{
  ProcSample, proc_sample, kernel_sample, core_sample, sample_of_fields,
}
use zhtps.Bench.Overload.ProcFields.{IsField, is_field-IsField, stat_of, proc_sample-stat_of}

-- A name with spaces and parentheses.
abbrev before : Text
before = codes "77 (a) R 1 (b"

abbrev one_digit : ℕ → Text
one_digit n = (48 + n) ∷ []

-- The state, and the numbers behind it.
abbrev fields : List Text
fields =
    codes "S"
    ∷ map one_digit (
        1 ∷ 7 ∷ 7 ∷ 0 ∷ 0 ∷ 4 ∷ 5 ∷ 0 ∷ 2 ∷ 0 ∷ 8 ∷ 3 ∷ 0 ∷ 0 ∷ 0 ∷ 0 ∷ 4 ∷ 0 ∷ 9 ∷ 6 ∷ 6 ∷ 0 ∷ 0
        ∷ 0 ∷ 0 ∷ 0 ∷ 0 ∷ 0 ∷ 0 ∷ 0 ∷ 0 ∷ 0 ∷ 0 ∷ 0 ∷ 0 ∷ 1 ∷ 0 ∷ 0 ∷ [])

abbrev line : String → Text
line text = codes text ++ 10 ∷ []

abbrev status : Text
status =
    line "Name:\ta"
    ++ line "VmHWM:\t   12 kB"
    ++ line "VmRSS:\t    8 kB"
    ++ line "Threads:\t1"
    ++ line "voluntary_ctxt_switches:\t5"
    ++ line "nonvoluntary_ctxt_switches:\t6"

abbrev process : ProcSample
process = record {
  status =
      (codes "VmHWM", 12_288)
      ∷ (codes "VmRSS", 8192)
      ∷ (codes "voluntary_ctxt_switches", 5)
      ∷ (codes "nonvoluntary_ctxt_switches", 6)
      ∷ [];
  user_ticks = 8;
  system_ticks = 3;
  minor_faults = 5;
  major_faults = 2;
  last_cpu = 1;
  fds = 9;
}

fields-IsField : All IsField fields
fields-IsField = is_field-IsField fields refl

proc_sample-stat_of_example :
    proc_sample (stat_of before fields) status 9 ≡ sample_of_fields fields status 9
proc_sample-stat_of_example = proc_sample-stat_of before fields status 9 fields-IsField

proc_sample_tests :
    (proc_sample (stat_of before fields) status 9 ≡ ok process)
    × (proc_sample (codes "77 (a") status 9 ≡ err (index_error "list index out of range"))
    × (proc_sample (codes "77 (a) S 1") status 9 ≡ err (index_error "list index out of range"))
    × (proc_sample (stat_of before fields) (line "VmRSS: 8") 9
        ≡ err (value_error "not three values to unpack"))
unfolding proc_sample stat_of
proc_sample_tests = (refl, refl, refl, refl)

abbrev netstat : Text
netstat =
    line "IpExt: InOctets"
    ++ line "IpExt: 9"
    ++ line "TcpExt: SyncookiesSent ListenDrops ListenOverflows"
    ++ line "TcpExt: 1 2 3"

abbrev sockstat : Text
sockstat = line "sockets: used 9" ++ line "TCP: inuse 4 orphan 0"

abbrev softirqs : Text
softirqs = line "      CPU0 CPU1" ++ line " NET_RX: 7 8" ++ line " TASKLET: 1 x"

abbrev dev : Text
dev =
    line "Inter-| Receive"
    ++ line " face |bytes"
    ++ line "    lo: 1 2 3 4 5 6 7 8 9 10 11 12 13 14 15 16"

kernel_sample_tests :
    (kernel_sample netstat sockstat softirqs dev
      ≡ ok (
          some (record {
            counters =
                (codes "ListenOverflows", 3)
                ∷ (codes "ListenDrops", 2)
                ∷ (codes "TCPReqQFullDoCookies", 0)
                ∷ (codes "TCPReqQFullDrop", 0)
                ∷ (codes "TCPBacklogDrop", 0)
                ∷ [];
            sockets = (codes "tcp_inuse", 4) ∷ (codes "tcp_orphan", 0) ∷ [];
            softirqs = (codes "NET_RX", 7 ∷ 8 ∷ []) ∷ [];
            interfaces =
                (
                  codes "lo",
                  (codes "rx_bytes", 1)
                      ∷ (codes "rx_packets", 2)
                      ∷ (codes "rx_errors", 3)
                      ∷ (codes "rx_drops", 4)
                      ∷ (codes "tx_bytes", 9)
                      ∷ (codes "tx_packets", 10)
                      ∷ (codes "tx_errors", 11)
                      ∷ (codes "tx_drops", 12)
                      ∷ [],
                )
                ∷ [];
          })))
    × (kernel_sample (line "IpExt: 9") sockstat softirqs dev ≡ ok none)
    × (kernel_sample (line "TcpExt: InOctets") sockstat softirqs dev
        ≡ err (index_error "list index out of range"))
unfolding kernel_sample
kernel_sample_tests = (refl, refl, refl)

core_sample_tests :
    core_sample (1 ∷ []) (line "cpu  9 9" ++ line "cpu0 1 2" ++ line "cpu1 3 4" ++ line "intr x")
    ≡ ok ((codes "cpu1", 3 ∷ 4 ∷ []) ∷ [])
unfolding core_sample
core_sample_tests = refl
