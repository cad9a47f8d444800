-- ===== src/Rlimits/Builder.antt =====
-- The methods of `Rlimits` of policy/rlimit.rs.
use layer_cake.Prelude.{Option, none, some}
use layer_cake.Rlimits.{Rlimit, Rlimits}
use layer_cake.Rlimits.Limit

-- `unwrap_or_default`
unfoldable pub or_default : Option Rlimit → Rlimit
unfolding Limit.default Limit.new
or_default none = Limit.default
or_default (some l) = l

unfoldable pub default : Rlimits
default = record {
  address_space = none;
  core = none;
  cpu = none;
  data_size = none;
  fsize = none;
  locks = none;
  memlock = none;
  msgqueue = none;
  nice = none;
  nofile = none;
  nproc = none;
  rtprio = none;
  rttime = none;
  sigpending = none;
  stack = none;
}

unfoldable pub address_space : (Rlimit → Rlimit) → Rlimits → Rlimits
unfolding or_default
address_space configure p = record p {
  address_space = some (configure (or_default p.address_space));
}

unfoldable pub clear_address_space : Rlimits → Rlimits
clear_address_space p = record p { address_space = none }

unfoldable pub core : (Rlimit → Rlimit) → Rlimits → Rlimits
unfolding or_default
core configure p = record p { core = some (configure (or_default p.core)) }

unfoldable pub clear_core : Rlimits → Rlimits
clear_core p = record p { core = none }

unfoldable pub cpu : (Rlimit → Rlimit) → Rlimits → Rlimits
unfolding or_default
cpu configure p = record p { cpu = some (configure (or_default p.cpu)) }

unfoldable pub clear_cpu : Rlimits → Rlimits
clear_cpu p = record p { cpu = none }

unfoldable pub data_size : (Rlimit → Rlimit) → Rlimits → Rlimits
unfolding or_default
data_size configure p = record p { data_size = some (configure (or_default p.data_size)) }

unfoldable pub clear_data : Rlimits → Rlimits
clear_data p = record p { data_size = none }

unfoldable pub fsize : (Rlimit → Rlimit) → Rlimits → Rlimits
unfolding or_default
fsize configure p = record p { fsize = some (configure (or_default p.fsize)) }

unfoldable pub clear_fsize : Rlimits → Rlimits
clear_fsize p = record p { fsize = none }

unfoldable pub locks : (Rlimit → Rlimit) → Rlimits → Rlimits
unfolding or_default
locks configure p = record p { locks = some (configure (or_default p.locks)) }

unfoldable pub clear_locks : Rlimits → Rlimits
clear_locks p = record p { locks = none }

unfoldable pub memlock : (Rlimit → Rlimit) → Rlimits → Rlimits
unfolding or_default
memlock configure p = record p { memlock = some (configure (or_default p.memlock)) }

unfoldable pub clear_memlock : Rlimits → Rlimits
clear_memlock p = record p { memlock = none }

unfoldable pub msgqueue : (Rlimit → Rlimit) → Rlimits → Rlimits
unfolding or_default
msgqueue configure p = record p { msgqueue = some (configure (or_default p.msgqueue)) }

unfoldable pub clear_msgqueue : Rlimits → Rlimits
clear_msgqueue p = record p { msgqueue = none }

unfoldable pub nice : (Rlimit → Rlimit) → Rlimits → Rlimits
unfolding or_default
nice configure p = record p { nice = some (configure (or_default p.nice)) }

unfoldable pub clear_nice : Rlimits → Rlimits
clear_nice p = record p { nice = none }

unfoldable pub nofile : (Rlimit → Rlimit) → Rlimits → Rlimits
unfolding or_default
nofile configure p = record p { nofile = some (configure (or_default p.nofile)) }

unfoldable pub clear_nofile : Rlimits → Rlimits
clear_nofile p = record p { nofile = none }

unfoldable pub nproc : (Rlimit → Rlimit) → Rlimits → Rlimits
unfolding or_default
nproc configure p = record p { nproc = some (configure (or_default p.nproc)) }

unfoldable pub clear_nproc : Rlimits → Rlimits
clear_nproc p = record p { nproc = none }

unfoldable pub rtprio : (Rlimit → Rlimit) → Rlimits → Rlimits
unfolding or_default
rtprio configure p = record p { rtprio = some (configure (or_default p.rtprio)) }

unfoldable pub clear_rtprio : Rlimits → Rlimits
clear_rtprio p = record p { rtprio = none }

unfoldable pub rttime : (Rlimit → Rlimit) → Rlimits → Rlimits
unfolding or_default
rttime configure p = record p { rttime = some (configure (or_default p.rttime)) }

unfoldable pub clear_rttime : Rlimits → Rlimits
clear_rttime p = record p { rttime = none }

unfoldable pub sigpending : (Rlimit → Rlimit) → Rlimits → Rlimits
unfolding or_default
sigpending configure p = record p { sigpending = some (configure (or_default p.sigpending)) }

unfoldable pub clear_sigpending : Rlimits → Rlimits
clear_sigpending p = record p { sigpending = none }

unfoldable pub stack : (Rlimit → Rlimit) → Rlimits → Rlimits
unfolding or_default
stack configure p = record p { stack = some (configure (or_default p.stack)) }

unfoldable pub clear_stack : Rlimits → Rlimits
clear_stack p = record p { stack = none }
