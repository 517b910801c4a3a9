-- ===== src/Shell.antt =====
-- posix-shell/src: the table of jobs (jobs.c), the reading of a command line (shell.c, parser.c,
-- intrinsics.c), pipelines and the commands that work on jobs and directories (execute.c,
-- intrinsics.c).
pub mod Jobs
pub mod Ids
pub mod Recent
pub mod Text
pub mod Spacing
pub mod Words
pub mod Parser
pub mod Commands
pub mod Descriptors
pub mod Pipes
pub mod Attach
pub mod Wiring
pub mod Control
pub mod Directories
pub mod Returns
pub mod History
pub mod Line
pub mod Recall
pub mod Loops
mod Examples
mod Plumbing
