-- ===== src/Examples.antt =====
-- Runs of the model at concrete inputs, where the hypotheses of the theorems hold.
pub mod Kernels
pub mod FdPolicies
pub mod MountTrees
pub mod GuestPaths
pub mod Messages
pub mod Schedulers
pub mod Policies
pub mod Pipes
pub mod Mountings
pub mod Attaching
pub mod Cgroups
pub mod Namespaces
pub mod Netlinks
