-- ===== src/Tests.antt =====
-- The theorems at concrete inputs.
mod Data
mod Server
mod DigestCases
mod TreeCases
mod StoreCases
mod CacheCases
mod MountCases
mod CasCases
mod UploadCases
mod RemoteCases
mod DaemonCases
mod CliCases
mod OpeningCases
mod StartCases
