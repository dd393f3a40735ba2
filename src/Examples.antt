-- ===== src/Examples.antt =====
-- Tests of the model on small inputs, and an application of each property.
mod Table
mod Trees
mod Printed
mod Notifications
mod State
mod Windows
mod Epochs
mod Processes
mod Fortran
mod Passes
mod Ends
