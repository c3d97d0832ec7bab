-- ===== src/Shell/Call.antt =====
-- sphere_prac/p4/Call.cpp, Call.hpp: one call of a command, as a process gets it.
use technosphere.Common.Bytes.{Bytes}
use technosphere.Common.{ℕ, List, [], ◌∷◌}

pub record Call : Type 0 where
  pub command : Bytes
  pub args : List Bytes
  pub input_file : Bytes
  pub output_file : Bytes
  pub infd : ℕ
  pub outfd : ℕ

unfoldable pub set_in_out_fd : ℕ → ℕ → Call → Call
set_in_out_fd infd outfd c = record c { infd = infd; outfd = outfd }

unfoldable pub set_in_fd : ℕ → Call → Call
set_in_fd infd c = record c { infd = infd }

unfoldable pub set_out_fd : ℕ → Call → Call
set_out_fd outfd c = record c { outfd = outfd }

-- What stands at a descriptor of the child: a copy of one of the shell's, or a file.
pub data Channel : Type 0 where
  descriptor : ℕ → Channel
  file : Bytes → Channel

unfoldable pub channel : Bytes → ℕ → Channel
channel [] fd = Channel.descriptor fd
channel (c ∷ name) fd = Channel.file (c ∷ name)

-- What `execvp` gets, and the descriptors 0 and 1 that `dup2` made.
pub record Process : Type 0 where
  pub argv : List Bytes
  pub input : Channel
  pub output : Channel

-- `get_old_style_args`, without the null pointer at the end
unfoldable pub get_old_style_args : Call → List Bytes
get_old_style_args c = c.command ∷ c.args

-- The child of `Call::run`.
unfoldable pub process : Call → Process
unfolding get_old_style_args channel
process c = record {
  argv = get_old_style_args c;
  input = channel c.input_file c.infd;
  output = channel c.output_file c.outfd;
}
